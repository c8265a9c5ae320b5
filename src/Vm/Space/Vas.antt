-- ===== src/Vm/Space/Vas.antt =====
-- The list `bo->va`: the entry of an address space, its reference count, its removal.
use lima_freebsd.Base.{
  ℕ, ◌≡◌, refl, none, some, List, [], ◌∷◌, ◌++◌, arith, Bool-cases, ap, inl, inr, ◌==◌,
}
use lima_freebsd.Vm.Space.{BoVa, bo_find, set_ref_count, del_va}

module _ (vm : ℕ) where
  pub bo_find-set_ref_count :
      (n : ℕ) (vs : List BoVa) (v : BoVa)
      → bo_find vm vs ≡ some v
      → bo_find vm (set_ref_count vm n vs) ≡ some (record v { ref_count = n })
  unfolding bo_find set_ref_count
  bo_find-set_ref_count n [] v h = ground arith
  bo_find-set_ref_count n (x ∷ vs) v h = ground (arith, bo_find-set_ref_count n vs v)

  -- The entry that is found is the first of its space, and its count alone is set.
  pub set_ref_count_at :
      (n : ℕ) (vs : List BoVa) (v : BoVa)
      → bo_find vm vs ≡ some v
      → (before after : List BoVa) × (vs ≡ before ++ v ∷ after)
        × (bo_find vm before ≡ none)
        × (set_ref_count vm n vs ≡ before ++ record v { ref_count = n } ∷ after)
  unfolding bo_find set_ref_count
  set_ref_count_at n [] v h = absurd (ground arith)
  set_ref_count_at n (x ∷ vs) v h = elim (Bool-cases (x.vm == vm)) [
    | inl e ↦
        let same : x ≡ v = ground (arith, h, e) in
        (
          [],
          vs,
          ap (λ y. y ∷ vs) same,
          refl,
          rw e (ap {A = BoVa} (λ y. record y { ref_count = n } ∷ vs) same),
        )
    | inr e ↦
        let (before, after, split, first, set) = set_ref_count_at n vs v (rw e at h) in
        (x ∷ before, after, ap (λ l. x ∷ l) split, rw e first, rw e (ap (λ l. x ∷ l) set))
  ]

  pub set_ref_count_set :
      (n k : ℕ) (vs : List BoVa)
      → set_ref_count vm k (set_ref_count vm n vs) ≡ set_ref_count vm k vs
  unfolding set_ref_count
  set_ref_count_set n k [] = refl
  set_ref_count_set n k (x ∷ vs) = ground (arith, set_ref_count_set n k vs)

  pub set_ref_count_self :
      (vs : List BoVa) (v : BoVa) → bo_find vm vs ≡ some v → set_ref_count vm v.ref_count vs ≡ vs
  unfolding bo_find set_ref_count
  set_ref_count_self [] v h = refl
  set_ref_count_self (x ∷ vs) v h = ground (arith, set_ref_count_self vs v)

  pub bo_find-append :
      (vs : List BoVa) (v : BoVa)
      → bo_find vm vs ≡ none
      → v.vm ≡ vm
      → bo_find vm (vs ++ v ∷ []) ≡ some v
  unfolding bo_find
  bo_find-append [] v h e = ground arith
  bo_find-append (x ∷ vs) v h e = ground (arith, bo_find-append vs v)

  pub del_va-append :
      (vs : List BoVa) (v : BoVa) → bo_find vm vs ≡ none → v.vm ≡ vm → del_va vm (vs ++ v ∷ []) ≡ vs
  unfolding bo_find del_va
  del_va-append [] v h e = ground arith
  del_va-append (x ∷ vs) v h e = ground (arith, del_va-append vs v)
