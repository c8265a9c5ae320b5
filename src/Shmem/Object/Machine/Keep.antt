-- ===== src/Shmem/Object/Machine/Keep.antt =====
-- The page counts of the machine: each function of the object that takes or drops pages, called as
-- its contract asks, returns without a fault and keeps the invariant.
use lima_freebsd.Base.{
  ℕ, suc, ◌+◌, ◌<◌, ◌≡◌, subst, Option, arith, false, ltb, Result-cases, inl, inr, is_some, done,
}
use lima_freebsd.Base.Int.{ℤ}
use lima_freebsd.Shmem.Logic.{uint_mod}
use lima_freebsd.Shmem.Pages.{Memory, Kernel}
use lima_freebsd.Shmem.Object.{Object, get_pages, put_pages, madvise, vm_open}
use lima_freebsd.Shmem.Object.Counts.{
  Consistent, SameRest, get_pages-Consistent, put_pages-Consistent,
}
use lima_freebsd.Shmem.Object.Machine.{System, Inv, holders_of, bit, held_by, put_in}

module _ (base : ℕ → ℕ) (a : System) (v : Inv base a) where
  -- An object that differs from the machine's in its pages alone.
  same_rest :
      (o : Object) (s : Memory) (n pins maps : ℕ)
      → Consistent base n o s
      → SameRest a.o o
      → n ≡ pins + maps + bit (ltb 0 a.o.vmap_use_count) + bit (is_some a.o.sgt)
      → Inv base (put_in (o, s) pins maps)
  same_rest o s n pins maps c same e = record {
    native = ground (arith, v.native);
    consistent = record {
      counted = ground (arith, c.counted);
      present = ground (arith, c.present);
      wired = c.wired;
    };
    mapped = ground (arith, v.mapped);
  }

  pub get_pages-Inv :
      (k : Kernel)
      → holders_of a + 1 < uint_mod
      → let (r, o, s) = get_pages k a.o a.s in
        Inv base (put_in (o, s) (held_by r a.pins) a.maps)
        × Inv base (put_in (o, s) a.pins (held_by r a.maps))
  get_pages-Inv k room =
      let (c, same) = get_pages-Consistent base (holders_of a) k a.o a.s room v.consistent in
      elim (Result-cases (get_pages k a.o a.s).0) [
        | inl (u, e) ↦ (
          same_rest _ _ _ _ _ c same (rw e (omega arith)),
          same_rest _ _ _ _ _ c same (rw e (omega arith)),
        )
        | inr (x, e) ↦ (
          same_rest _ _ _ _ _ c same (rw e (omega arith)),
          same_rest _ _ _ _ _ c same (rw e (omega arith)),
        )
      ]

  pub put_pages-Inv :
      (n pins maps : ℕ)
      → holders_of a ≡ suc n
      → n ≡ pins + maps + bit (ltb 0 a.o.vmap_use_count) + bit (is_some a.o.sgt)
      → (o : Object) × (s : Memory) × (put_pages a.o a.s ≡ done (o, s))
        × Inv base (put_in (o, s) pins maps)
  put_pages-Inv n pins maps e f =
      let (o, s, run, c, same) =
        put_pages-Consistent base n a.o a.s
          (subst (λ k. Consistent base k a.o a.s) e v.consistent) in
      (o, s, run, same_rest o s n pins maps c same f)

  -- An object whose pages are consistent, with the mapping and the table given anew.
  pub assemble :
      (q : Object) (s : Memory) (n pins maps j : ℕ) (w t : Option ℕ)
      → Consistent base n q s
      → q.imported ≡ false
      → n ≡ pins + maps + bit (ltb 0 j) + bit (is_some t)
      → is_some w ≡ ltb 0 j
      → Inv base (put_in (record q { vmap_use_count = j; vaddr = w; sgt = t }, s) pins maps)
  assemble q s n pins maps j w t c nat e f = record {
    native = nat;
    consistent = record {
      counted = ground (arith, c.counted);
      present = ground (arith, c.present);
      wired = c.wired;
    };
    mapped = f;
  }

  pub vm_open-Inv :
      holders_of a + 1 < uint_mod
      → 0 < a.maps
      → Inv base (put_in (vm_open a.o, a.s) a.pins (suc a.maps))
  unfolding vm_open
  vm_open-Inv room h = record {
    native = ground (arith, v.native);
    consistent = record {
      counted = ground (arith, v.consistent.counted);
      present = ground (arith, v.consistent.present, v.consistent.counted);
      wired = λ p. ground (arith, v.consistent.wired p);
    };
    mapped = ground (arith, v.mapped);
  }

  pub madvise-Inv : (m : ℤ) → Inv base (put_in ((madvise m a.o).1, a.s) a.pins a.maps)
  unfolding madvise
  madvise-Inv m = record {
    native = v.native;
    consistent = record {
      counted = v.consistent.counted;
      present = v.consistent.present;
      wired = v.consistent.wired;
    };
    mapped = v.mapped;
  }
