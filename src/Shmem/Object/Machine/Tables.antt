-- ===== src/Shmem/Object/Machine/Tables.antt =====
-- drm_gem_shmem_get_pages_sgt and drm_gem_shmem_purge, as steps of the machine.
use lima_freebsd.Base.{
  ℕ, suc, ◌+◌, ◌<◌, ◌≡◌, refl, ap, ◌∙◌, subst, none, some, arith, true, false, ltb, lt→ltb,
  Result-cases, Option-cases, inl, inr, ◌⊎◌, Errno, ok, err, Result, Status, is_some, Run, done,
  and_then,
}
use lima_freebsd.Base.Int.{negsuc}
use lima_freebsd.Shmem.Logic.{uint_mod, purgeable}
use lima_freebsd.Shmem.Pages.{Memory, Kernel}
use lima_freebsd.Shmem.Object.{
  Object, get_pages, put_pages, is_purgeable, purge, get_pages_sgt, get_pages_sgt_locked, map_table,
  err_put_pages,
}
use lima_freebsd.Shmem.Object.Counts.{
  Consistent, SameRest, holders, get_pages-Consistent, put_pages-Consistent,
}
use lima_freebsd.Shmem.Object.Machine.{System, Inv, holders_of, held_by, put_in}
use lima_freebsd.Shmem.Object.Machine.Keep.{assemble, get_pages-Inv}

err_put_pages_done :
    (e : Errno) (o : Object) (s : Memory) (o' : Object) (s' : Memory)
    → put_pages o s ≡ done (o', s')
    → err_put_pages e o s ≡ done (err e, o', s')
unfolding err_put_pages
err_put_pages_done e o s o' s' run = ap (λ r. and_then r λ p. done (err e, p.0, p.1)) run

pub map_table_cases :
    (g : Result ℕ) (m : Status) (o : Object) (s : Memory) (o' : Object) (s' : Memory)
    → put_pages o s ≡ done (o', s')
    → ((e : Errno) × (map_table g m o s ≡ done (err e, o', s')))
      ⊎ ((t : ℕ) × (map_table g m o s ≡ done (ok t, record o { sgt = some t }, s)))
unfolding map_table
map_table_cases (err e) m o s o' s' run = inl (e, err_put_pages_done e o s o' s' run)
map_table_cases (ok t) (err e) o s o' s' run = inl (e, err_put_pages_done e o s o' s' run)
map_table_cases (ok t) (ok u) o s o' s' run = inr (t, refl)

pub locked_err :
    (k : Kernel) (g : Result ℕ) (m : Status) (o : Object) (s : Memory) (e : Errno)
    → o.sgt ≡ none
    → (get_pages k o s).0 ≡ err e
    → get_pages_sgt_locked k g m o s ≡ done (err e, (get_pages k o s).1, (get_pages k o s).2)
unfolding get_pages_sgt_locked
locked_err k g m o s e z f = ground (arith, z, f)

pub locked_ok :
    (k : Kernel) (g : Result ℕ) (m : Status) (o : Object) (s : Memory) (u : Unit {0})
    → o.sgt ≡ none
    → (get_pages k o s).0 ≡ ok u
    → get_pages_sgt_locked k g m o s ≡ map_table g m (get_pages k o s).1 (get_pages k o s).2
unfolding get_pages_sgt_locked
locked_ok k g m o s u z f = ground (arith, z, f)

purgeable_facts :
    (o : Object) → is_purgeable o ≡ true → (o.vmap_use_count ≡ 0) × (is_some o.sgt ≡ true)
unfolding is_purgeable purgeable
purgeable_facts o p = ground arith

purge_done :
    (o : Object) (s : Memory) (o' : Object) (s' : Memory)
    → is_some o.sgt ≡ true
    → is_some o.pages ≡ true
    → put_pages (record o { sgt = none }) s ≡ done (o', s')
    → purge o s ≡ done (record o' { madv = negsuc 0; mmap_offset = false }, s')
unfolding purge
purge_done o s o' s' t p run = start ∙ ap after run
  where
    after : Run (Object × Memory) → Run (Object × Memory)
    after r = and_then r λ q. done (record q.0 { madv = negsuc 0; mmap_offset = false }, q.1)

    start : purge o s ≡ after (put_pages (record o { sgt = none }) s)
    start = ground (arith, t, p)

module _ (base : ℕ → ℕ) (a : System) (v : Inv base a) where
  map_table-Inv :
      (g : Result ℕ) (m : Status) (o : Object) (s : Memory)
      → Consistent base (suc (holders_of a)) o s
      → SameRest a.o o
      → a.o.sgt ≡ none
      → (r : Result ℕ) × (o' : Object) × (s' : Memory) × (map_table g m o s ≡ done (r, o', s'))
        × Inv base (put_in (o', s') a.pins a.maps)
  map_table-Inv g m o s c same z =
      let (o', s', run, d, same') = put_pages-Consistent base (holders_of a) o s c in
      elim (map_table_cases g m o s o' s' run) [
        | inl (e, f) ↦ (
          err e,
          o',
          s',
          f,
          assemble base a v o' s' _ a.pins a.maps o'.vmap_use_count o'.vaddr o'.sgt d
              (ground (arith, same, same', v.native)) (ground (arith, same, same'))
              (ground (arith, same, same', v.mapped)),
        )
        | inr (t, f) ↦ (
          ok t,
          record o { sgt = some t },
          s,
          f,
          assemble base a v o s _ a.pins a.maps o.vmap_use_count o.vaddr (some t) c
              (ground (arith, same, v.native)) (ground (arith, same, z))
              (ground (arith, same, v.mapped)),
        )
      ]

  -- Whatever the lock, the pages, the table and the mapping answer.
  pub get_pages_sgt-Inv :
      (lock : Status) (k : Kernel) (g : Result ℕ) (m : Status)
      → holders_of a + 1 < uint_mod
      → (r : Result ℕ) × (o : Object) × (s : Memory) × (get_pages_sgt lock k g m a.o a.s
          ≡ done (r, o, s))
        × Inv base (put_in (o, s) a.pins a.maps)
  unfolding get_pages_sgt get_pages_sgt_locked
  get_pages_sgt-Inv (err e) k g m room = (err e, a.o, a.s, refl, v)
  get_pages_sgt-Inv (ok u) k g m room = elim (Option-cases a.o.sgt) [
    | inr (t, z) ↦ (ok t, a.o, a.s, rw z refl, v)
    | inl z ↦
        let (c, same) = get_pages-Consistent base (holders_of a) k a.o a.s room v.consistent in
        elim (Result-cases (get_pages k a.o a.s).0) [
          | inr (e, f) ↦ (
            err e,
            (get_pages k a.o a.s).1,
            (get_pages k a.o a.s).2,
            locked_err k g m a.o a.s e z f,
            subst
                (λ t. Inv base (
                  put_in ((get_pages k a.o a.s).1, (get_pages k a.o a.s).2) (held_by t a.pins)
                    a.maps))
                f (get_pages-Inv base a v k room).0,
          )
          | inl (w, f) ↦
              let (r, o, s, run, inv) =
                map_table-Inv g m (get_pages k a.o a.s).1 (get_pages k a.o a.s).2
                  (subst
                    (λ t.
                      Consistent base (holders t (holders_of a)) (get_pages k a.o a.s).1
                        (get_pages k a.o a.s).2)
                    f c)
                  same z in
              (r, o, s, locked_ok k g m a.o a.s w z f ∙ run, inv)
        ]
  ]

  pub purge-Inv :
      is_purgeable a.o ≡ true
      → (o : Object) × (s : Memory) × (purge a.o a.s ≡ done (o, s))
        × Inv base (put_in (o, s) a.pins a.maps)
  purge-Inv p =
      let (z, t) = purgeable_facts a.o p in
      let e : holders_of a ≡ suc (a.pins + a.maps) = rw (z, t) (omega arith) in
      let (o, s, run, d, same) =
        put_pages-Consistent base (a.pins + a.maps) (record a.o { sgt = none }) a.s
          (subst (λ n. Consistent base n (record a.o { sgt = none }) a.s) e
            (record {
              counted = v.consistent.counted;
              present = v.consistent.present;
              wired = v.consistent.wired;
            })) in
      (
        record o { madv = negsuc 0; mmap_offset = false },
        s,
        purge_done a.o a.s o s t (v.consistent.present ∙ ap (ltb 0) e ∙ lt→ltb 0 _ (omega arith))
            run,
        purged o s d same z,
      )
    where
      purged :
          (o : Object) (s : Memory)
          → Consistent base (a.pins + a.maps) o s
          → SameRest (record a.o { sgt = none }) o
          → a.o.vmap_use_count ≡ 0
          → Inv base (put_in (record o { madv = negsuc 0; mmap_offset = false }, s) a.pins a.maps)
      purged o s d same z = record {
        native = ground (arith, same, v.native);
        consistent = record {
          counted = ground (arith, d.counted, same);
          present = ground (arith, d.present, same);
          wired = d.wired;
        };
        mapped = ground (arith, same, v.mapped);
      }
