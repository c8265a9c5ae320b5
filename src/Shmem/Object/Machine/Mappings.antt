-- ===== src/Shmem/Object/Machine/Mappings.antt =====
-- drm_gem_shmem_vmap and drm_gem_shmem_vunmap of a native object, as steps of the machine.
use lima_freebsd.Base.{
  ℕ, ◌+◌, ◌-◌, ◌%◌, ◌<◌, ◌≡◌, ap, ◌∙◌, subst, Option, none, some, arith, false, ltb, ltb→lt, ◌==◌,
  Result-cases, Bool-cases, Option-cases, inl, inr, enomem, ok, err, Result, Status, is_some, Run,
  done, and_then,
}
use lima_freebsd.Shmem.Logic.{uint_mod, unref, release}
use lima_freebsd.Shmem.Pages.{Memory, Kernel}
use lima_freebsd.Shmem.Object.{
  Object, get_pages, put_pages, vmap_first, vmap_native, vunmap, drop_mapping,
}
use lima_freebsd.Shmem.Object.Counts.{
  Consistent, SameRest, holders, get_pages-Consistent, put_pages-Consistent,
}
use lima_freebsd.Shmem.Object.Machine.{System, Inv, holders_of, bit, put_in}
use lima_freebsd.Shmem.Object.Machine.Keep.{assemble}

-- The mapping that `vmap` refuses gives the pages back.
vmap_first_unmapped :
    (k : Kernel) (m : Option ℕ) (o : Object) (s : Memory) (o' : Object) (s' : Memory) {u : Unit {0}}
    → (get_pages k o s).0 ≡ ok u
    → m ≡ none
    → put_pages (record (get_pages k o s).1 { vaddr = none }) (get_pages k o s).2 ≡ done (o', s')
    → vmap_first k m o s ≡ done (err enomem, record o' { vmap_use_count = 0 }, s')
unfolding vmap_first
vmap_first_unmapped k m o s o' s' e g run = rw (e, g, run, vmap_first)

vunmap_last :
    (o : Object) (s : Memory) (o' : Object) (s' : Memory)
    → o.imported ≡ false
    → o.vmap_use_count ≡ 1
    → put_pages (record o { vmap_use_count = 0 }) s ≡ done (o', s')
    → vunmap o s ≡ done (record o' { vaddr = none }, s')
unfolding vunmap drop_mapping
vunmap_last o s o' s' nat z run = native ∙ ap (λ p. drop_mapping p o s) last ∙ ap after run
  where
    after : Run (Object × Memory) → Run (Object × Memory)
    after r = and_then r λ p. done (record p.0 { vaddr = none }, p.1)

    native : vunmap o s ≡ drop_mapping (unref o.vmap_use_count) o s
    native = ground (arith, nat)

    last : unref o.vmap_use_count ≡ (release, 0)
    last = unfold unref in ground (arith, z)

module _ (base : ℕ → ℕ) (a : System) (v : Inv base a) where
  vmap_again :
      (k : Kernel) (m : Option ℕ)
      → (a.o.vmap_use_count == 0) ≡ false
      → a.o.vmap_use_count + 1 < uint_mod
      → (r : Result (Option ℕ)) × (o : Object) × (s : Memory) × (vmap_native k m a.o a.s
          ≡ done (r, o, s))
        × Inv base (put_in (o, s) a.pins a.maps)
  unfolding vmap_native
  vmap_again k m h room = (
    ok a.o.vaddr,
    record a.o { vmap_use_count = (a.o.vmap_use_count + 1) % uint_mod },
    a.s,
    ground arith,
    record {
      native = v.native;
      consistent = record {
        counted = ground (arith, v.consistent.counted);
        present = ground (arith, v.consistent.present);
        wired = v.consistent.wired;
      };
      mapped = ground (arith, v.mapped);
    },
  )

  vmap_first-Inv :
      (k : Kernel) (m : Option ℕ)
      → a.o.vmap_use_count ≡ 0
      → holders_of a + 1 < uint_mod
      → (r : Result (Option ℕ)) × (o : Object) × (s : Memory) × (vmap_first k m
            (record a.o { vmap_use_count = 1 })
            a.s
          ≡ done (r, o, s))
        × Inv base (put_in (o, s) a.pins a.maps)
  unfolding vmap_first
  vmap_first-Inv k m z room = elim (Result-cases r) [
    | inr (e, f) ↦ (
      err e,
      record o' { vmap_use_count = 0 },
      s',
      rw (f, vmap_first),
      assemble base a v o' s' _ a.pins a.maps 0 o'.vaddr o'.sgt c (ground (arith, same, v.native))
          (rw f (ground (arith, z, same))) (ground (arith, z, same, v.mapped)),
    )
    | inl (u, f) ↦ elim (Option-cases m) [
      | inr (x, g) ↦ (
        ok (some x),
        record o' { vaddr = some x },
        s',
        rw (f, g, vmap_first),
        assemble base a v o' s' _ a.pins a.maps o'.vmap_use_count (some x) o'.sgt c
            (ground (arith, same, v.native)) (rw f (ground (arith, z, same)))
            (ground (arith, same)),
      )
      | inl g ↦
          let (o'', s'', run, d, same') =
            put_pages-Consistent base (holders_of a) (record o' { vaddr = none }) s'
              (without_vaddr (subst (λ t. Consistent base (holders t (holders_of a)) o' s') f c)) in
          (
            err enomem,
            record o'' { vmap_use_count = 0 },
            s'',
            vmap_first_unmapped k m o1 a.s o'' s'' f g run,
            assemble base a v o'' s'' _ a.pins a.maps 0 o''.vaddr o''.sgt d
                (ground (arith, same, same', v.native)) (ground (arith, z, same, same'))
                (ground (arith, same')),
          )
    ]
  ]
    where
      o1 : Object
      o1 = record a.o { vmap_use_count = 1 }

      r : Status
      r = (get_pages k o1 a.s).0

      o' : Object
      o' = (get_pages k o1 a.s).1

      s' : Memory
      s' = (get_pages k o1 a.s).2

      got : Consistent base (holders r (holders_of a)) o' s' × SameRest o1 o'
      got = get_pages-Consistent base (holders_of a) k o1 a.s room (record {
        counted = v.consistent.counted;
        present = v.consistent.present;
        wired = v.consistent.wired;
      })

      c : Consistent base (holders r (holders_of a)) o' s'
      c = got.0

      same : SameRest o1 o'
      same = got.1

      without_vaddr :
          {n : ℕ} → Consistent base n o' s' → Consistent base n (record o' { vaddr = none }) s'
      without_vaddr b = record { counted = b.counted; present = b.present; wired = b.wired }

  pub vmap-Inv :
      (k : Kernel) (m : Option ℕ)
      → holders_of a + 1 < uint_mod
      → a.o.vmap_use_count + 1 < uint_mod
      → (r : Result (Option ℕ)) × (o : Object) × (s : Memory) × (vmap_native k m a.o a.s
          ≡ done (r, o, s))
        × Inv base (put_in (o, s) a.pins a.maps)
  vmap-Inv k m room small = elim (Bool-cases (a.o.vmap_use_count == 0)) [
    | inr n ↦ vmap_again k m n small
    | inl e ↦
        let (r, o, s, run, inv) = vmap_first-Inv k m (ground arith) room in
        (r, o, s, unfold vmap_native in ground (arith, run), inv)
  ]

  vunmap_held-Inv :
      0 < a.o.vmap_use_count
      → (o : Object) × (s : Memory) × (vunmap a.o a.s ≡ done (o, s))
        × Inv base (put_in (o, s) a.pins a.maps)
  unfolding vunmap drop_mapping unref
  vunmap_held-Inv h = elim (Bool-cases (ltb 1 a.o.vmap_use_count)) [
    | inl many ↦ (
      record a.o { vmap_use_count = a.o.vmap_use_count - 1 },
      a.s,
      ground (arith, v.native),
      assemble base a v a.o a.s _ a.pins a.maps (a.o.vmap_use_count - 1) a.o.vaddr a.o.sgt
          v.consistent v.native (ground arith) (ground (arith, v.mapped)),
    )
    | inr few ↦
        let z : a.o.vmap_use_count ≡ 1 = ground arith in
        let (o, s, run, d, same) =
          put_pages-Consistent base (a.pins + a.maps + bit (is_some a.o.sgt))
            (record a.o { vmap_use_count = 0 }) a.s
            (subst (λ n. Consistent base n (record a.o { vmap_use_count = 0 }) a.s) (ground arith)
              (record {
                counted = v.consistent.counted;
                present = v.consistent.present;
                wired = v.consistent.wired;
              })) in
        (
          record o { vaddr = none },
          s,
          vunmap_last a.o a.s o s v.native z run,
          assemble base a v o s _ a.pins a.maps o.vmap_use_count none o.sgt d
              (ground (arith, same, v.native)) (ground (arith, same)) (ground (arith, same)),
        )
  ]

  -- An unmapping too many only warns.
  pub vunmap-Inv :
      (o : Object) × (s : Memory) × (vunmap a.o a.s ≡ done (o, s))
      × Inv base (put_in (o, s) a.pins a.maps)
  unfolding vunmap drop_mapping unref
  vunmap-Inv = elim (Bool-cases (ltb 0 a.o.vmap_use_count)) [
    | inl h ↦ vunmap_held-Inv (ltb→lt 0 a.o.vmap_use_count h)
    | inr h ↦ (a.o, a.s, ground (arith, v.native, h), v)
  ]
