-- ===== src/Vm/Life/Account.antt =====
-- The coherent memory of an address space: each page that it holds is allocated once, and release
-- gives back all of it and nothing else.
use lima_freebsd.Base.{
  times, ℕ, zero, suc, ◌+◌, ◌-◌, ◌<◌, ◌≤◌, ◌≡◌, refl, Option, none, some, List, [], ◌∷◌, arith,
  Bool, ltb, ◌==◌, if◌then◌else◌, update, Result-cases, Bool-cases, Option-cases, inl, inr,
}
use lima_freebsd.Vm.Mm.{Mm}
use lima_freebsd.Vm.Table.{
  pbe, bte, u32_mod, page_size, num_bt, reserve_dlbu, VmPage, Tables, Dma, remove_first, dma_alloc,
  dma_free, write_pte, find_bt, map_page,
}
use lima_freebsd.Vm.Table.Mapping.{find_bt_ok, map_page_err}
use lima_freebsd.Vm.Table.Geometry.{pbe-lt}
use lima_freebsd.Vm.Life.{Device, Object, empty_tables, free_bts, create_with, create, release}

-- The bus addresses of the backing tables in `n` slots from `i` on.
unfoldable pub held : ℕ → ℕ → (ℕ → Option VmPage) → List ℕ
held zero i bts = []
held (suc n) i bts = elim (bts i) [
  | none ↦ held n (i + 1) bts
  | some bt ↦ bt.dma ∷ held n (i + 1) bts
]

-- The allocated addresses are those of the tables and those of `rest`, each as often.
abbrev pub Accounted : Tables → List ℕ → List ℕ → Type 0
Accounted t rest live = (a : ℕ) → times a live ≡ times a (held num_bt 0 t.bts) + times a rest

times-remove_first :
    (a b : ℕ) (xs : List ℕ)
    → times b (remove_first a xs) ≡ (if a == b then times b xs - 1 else times b xs)
unfolding times remove_first
times-remove_first a b [] = ground arith
times-remove_first a b (x ∷ xs) = ground (arith, times-remove_first a b xs)

held_same :
    (n i : ℕ) (bts : ℕ → Option VmPage) (slot : ℕ) (o : Option VmPage)
    → slot < i
    → held n i (update bts slot o) ≡ held n i bts
unfolding held
held_same zero i bts slot o h = refl
held_same (suc n) i bts slot o h = ground (arith, held_same n (i + 1) bts slot o)

held_write :
    (n i : ℕ) (bts : ℕ → Option VmPage) (slot : ℕ) (bt : VmPage) (cpu : ℕ → ℕ)
    → bts slot ≡ some bt
    → held n i (update bts slot (some (record bt { cpu = cpu }))) ≡ held n i bts
unfolding held
held_write zero i bts slot bt cpu h = refl
held_write (suc n) i bts slot bt cpu h = ground (arith, held_write n (i + 1) bts slot bt cpu h)

held_install :
    (n i : ℕ) (bts : ℕ → Option VmPage) (slot : ℕ) (bt : VmPage) (a : ℕ)
    → bts slot ≡ none
    → i ≤ slot
    → slot < i + n
    → times a (held n i (update bts slot (some bt)))
      ≡ (if bt.dma == a then 1 else 0) + times a (held n i bts)
unfolding held times
held_install zero i bts slot bt a h lo hi = absurd (omega arith)
held_install (suc n) i bts slot bt a h lo hi =
    ground (arith, held_same n (i + 1) bts slot (some bt), held_install n (i + 1) bts slot bt a h)

times-free_bts :
    (n i : ℕ) (bts : ℕ → Option VmPage) (d : Dma)
    → ((a : ℕ) → times a (held n i bts) ≤ times a d.live)
    → (a : ℕ) → times a (free_bts n i bts d).live + times a (held n i bts) ≡ times a d.live
unfolding free_bts held times dma_free
times-free_bts zero i bts d h a = omega arith
times-free_bts (suc n) i bts d h a = elim (Option-cases (bts i)) [
  | inl e ↦ ground (arith, times-free_bts n (i + 1) bts d (λ b. ground (arith, h b)) a)
  | inr (bt, e) ↦ ground (
    arith,
    h a,
    times-remove_first bt.dma a d.live,
    times-free_bts n (i + 1) bts (dma_free bt.dma d)
        (λ b. ground (arith, h b, times-remove_first bt.dma b d.live)) a,
  )
]

find_bt-Accounted :
    (t : Tables) (d : Dma) (slot : ℕ) (rest : List ℕ)
    → slot < num_bt
    → Accounted t rest d.live
    → Accounted (find_bt t d slot).1 rest (find_bt t d slot).2.live
unfolding find_bt remove_first times
find_bt-Accounted t d slot rest h acc a = elim (Option-cases (t.bts slot)) [
  | inr (bt, e) ↦ ground (arith, acc a)
  | inl e ↦ elim (Option-cases (d.bus d.calls)) [
    | inl f ↦ ground (arith, acc a)
    | inr (pts, f) ↦ ground (
      arith,
      acc a,
      held_install num_bt 0 t.bts slot (record { cpu = λ _. 0; dma = pts }) a e (omega arith)
          (omega arith),
    )
  ]
]

write_pte-Accounted :
    (t : Tables) (slot : ℕ) (bt : VmPage) (i w : ℕ) (rest live : List ℕ)
    → t.bts slot ≡ some bt
    → Accounted t rest live
    → Accounted (write_pte t slot bt i w) rest live
unfolding write_pte
write_pte-Accounted t slot bt i w rest live e acc a =
    rw (held_write num_bt 0 t.bts slot bt (update bt.cpu i w) e) (acc a)

-- `lima_vm_map_page` keeps the account, whatever it returns: a table that it allocates is one that
-- the space holds, and one that it refuses is freed.
pub map_page-Accounted :
    (t : Tables) (d : Dma) (pa va : ℕ) (rest : List ℕ)
    → va < u32_mod
    → Accounted t rest d.live
    → Accounted (map_page t d pa va).1 rest (map_page t d pa va).2.live
unfolding map_page
map_page-Accounted t d pa va rest h acc =
    let found = find_bt-Accounted t d (pbe va) rest (pbe-lt va h) acc in
    elim (Bool-cases (ltb (u32_mod - 1 - page_size + 1) pa)) [
      | inl above ↦ rw (above, map_page) acc
      | inr below ↦ elim (Result-cases (find_bt t d (pbe va)).0) [
        | inl (bt, e) ↦
            rw (below, e, map_page)
              (write_pte-Accounted (find_bt t d (pbe va)).1 (pbe va) bt (bte va) _ rest _
                (find_bt_ok t d (pbe va) bt e) found)
        | inr (x, e) ↦ rw (below, e, map_page) found
      ]
    ]

held_empty : (n i : ℕ) → held n i (λ _. none) ≡ []
unfolding held
held_empty zero i = refl
held_empty (suc n) i = held_empty n (i + 1)

module _ (m : Mm) where
  create_with-Accounted :
      (dev : Device) (pd : ℕ) (d : Dma) (o : Object m) (rest : List ℕ) (a : ℕ)
      → Accounted empty_tables (pd ∷ rest) d.live
      → (create_with m dev pd d).0 ≡ some o
      → times a (create_with m dev pd d).1.live
        ≡ times a (held num_bt 0 o.tables.bts) + times a (o.pd_dma ∷ rest)
  unfolding create_with
  create_with-Accounted dev pd d o rest a acc h = elim (Option-cases dev.dlbu) [
    | inl e ↦ ground (arith, acc a)
    | inr (dlbu, e) ↦
        ground (
          arith,
          map_page-Accounted empty_tables d dlbu reserve_dlbu (pd ∷ rest) (omega arith) acc a,
        )
  ]

  create_with-none :
      (dev : Device) (pd : ℕ) (d : Dma) (rest : List ℕ)
      → d.live ≡ pd ∷ rest
      → (create_with m dev pd d).0 ≡ none
      → (create_with m dev pd d).1.live ≡ rest
  unfolding create_with dma_free remove_first
  create_with-none dev pd d rest e h = elim (Option-cases dev.dlbu) [
    | inl f ↦ ground arith
    | inr (dlbu, f) ↦ elim (Result-cases (map_page empty_tables d dlbu reserve_dlbu).0) [
      | inl (u, g) ↦ ground arith
      | inr (x, g) ↦ ground (arith, map_page_err empty_tables d dlbu reserve_dlbu x g)
    ]
  ]

  -- The coherent pages that a successful lima_vm_create leaves allocated, beside those before, are
  -- exactly the ones that the new space holds: its directory and its backing tables.
  pub create-Accounted :
      (kzalloc : Bool) (dev : Device) (d : Dma) (o : Object m) (a : ℕ)
      → (create m kzalloc dev d).0 ≡ some o
      → times a (create m kzalloc dev d).1.live
        ≡ times a (held num_bt 0 o.tables.bts) + times a (o.pd_dma ∷ d.live)
  unfolding create dma_alloc
  create-Accounted kz dev d o a h = elim (Option-cases (d.bus d.calls)) [
    | inl e ↦ ground arith
    | inr (pd, e) ↦ ground (
      arith,
      create_with-Accounted dev pd (record d { calls = d.calls + 1; live = pd ∷ d.live }) o d.live a
          (λ b. rw (held_empty num_bt 0) (unfold times in omega arith)),
    )
  ]

  -- A call of lima_vm_create that fails leaves nothing allocated.
  pub create-none :
      (kzalloc : Bool) (dev : Device) (d : Dma)
      → (create m kzalloc dev d).0 ≡ none
      → (create m kzalloc dev d).1.live ≡ d.live
  unfolding create dma_alloc
  create-none kz dev d h = elim (Option-cases (d.bus d.calls)) [
    | inl e ↦ ground arith
    | inr (pd, e) ↦ ground (
      arith,
      create_with-none dev pd (record d { calls = d.calls + 1; live = pd ∷ d.live }) d.live refl,
    )
  ]

  -- lima_vm_release gives back every page that the space holds, and nothing else.
  pub release-Accounted :
      (o : Object m) (d : Dma) (rest : List ℕ) (a : ℕ)
      → Accounted o.tables (o.pd_dma ∷ rest) d.live
      → times a (release m o d).live ≡ times a rest
  unfolding release times dma_free
  release-Accounted o d rest a acc = ground (
    arith,
    acc a,
    times-remove_first o.pd_dma a (free_bts num_bt 0 o.tables.bts d).live,
    times-free_bts num_bt 0 o.tables.bts d (λ b. ground (arith, acc b)) a,
  )
