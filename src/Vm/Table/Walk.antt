-- ===== src/Vm/Table/Walk.antt =====
-- The page directory that the GPU's MMU reads, against the backing tables that the driver writes.
use lima_freebsd.Base.{
  ℕ, zero, suc, ◌+◌, ◌-◌, ◌*◌, ◌/◌, ◌%◌, ◌<◌, ◌≤◌, ◌≡◌, none, some, arith, bit_or, ltb,
  if◌then◌else◌, update, Option-cases, Bool-cases, inl, inr,
}
use lima_freebsd.Base.Bits.{bit_or_aligned}
use lima_freebsd.Vm.Table.{
  u32_mod, u64_mod, page_size, num_pt_per_bt, pde, pte, pbe, bte, flag_present, VmPage, Tables, Dma,
  fill_pd, write_pte, alloc_bt, install_bt, find_bt, map_page,
}
use lima_freebsd.Vm.Table.Geometry.{slot_split}
use lima_freebsd.Vm.Table.Mapping.{map_page_cases}

-- What the driver relies on of `dma_alloc_coherent`: an allocation is page-aligned, and ends below
-- 2 ^ 64.
abbrev pub IsBus : Dma → Type 0
IsBus d =
    (n a : ℕ) → d.bus n ≡ some a → (a % page_size ≡ 0) × (a + page_size * num_pt_per_bt < u64_mod)

-- The eight directory entries of a slot hold the addresses of the eight page tables of its backing
-- table, marked present; of a slot without a table they are 0.
pub record IsWalkable (t : Tables) : Type 0 where
  pub linked :
      (slot j : ℕ) (bt : VmPage)
      → j < num_pt_per_bt
      → t.bts slot ≡ some bt
      → t.pd (slot * num_pt_per_bt + j) ≡ bt.dma + j * page_size + flag_present
  pub absent :
      (slot j : ℕ) → j < num_pt_per_bt → t.bts slot ≡ none → t.pd (slot * num_pt_per_bt + j) ≡ 0
  pub placed :
      (slot : ℕ) (bt : VmPage)
      → t.bts slot ≡ some bt
      → (bt.dma % page_size ≡ 0) × (bt.dma + page_size * num_pt_per_bt ≤ u32_mod)

-- The bus address of the word that the MMU fetches for `va`: the directory entry, less its flag
-- bits, is the page table, and LIMA_PTE is the index in it.
abbrev pub walk_address : Tables → ℕ → ℕ
walk_address t va = t.pd (pde va) / page_size * page_size + pte va * 4

-- Where the directory is in step with the backing tables and the slot of an address has one, the MMU,
-- which goes from the directory's entry to a word of a page table, fetches the word of the backing
-- table that the driver indexes, and the directory's entry is marked present.
pub walk-bts :
    (t : Tables) (va : ℕ) (bt : VmPage)
    → IsWalkable t
    → t.bts (pbe va) ≡ some bt
    → (walk_address t va ≡ bt.dma + bte va * 4) × (t.pd (pde va) % 2 ≡ 1)
walk-bts t va bt w e = ground (
  arith,
  slot_split va,
  w.linked (pbe va) (pde va % num_pt_per_bt) bt (omega arith) e,
  w.placed (pbe va) bt e,
)

-- And stops at the directory where the driver has no table.
pub walk-absent :
    (t : Tables) (va : ℕ) → IsWalkable t → t.bts (pbe va) ≡ none → t.pd (pde va) % 2 ≡ 0
walk-absent t va w e =
    ground (arith, slot_split va, w.absent (pbe va) (pde va % num_pt_per_bt) (omega arith) e)

fill_pd_lem :
    (n : ℕ) (pd : ℕ → ℕ) (i pts k : ℕ)
    → pts % page_size ≡ 0
    → pts + n * page_size ≤ u32_mod
    → fill_pd n pd i pts k ≡ (
        if ltb k i
        then pd k
        else if ltb k (i + n)
        then pts + (k - i) * page_size + flag_present
        else pd k)
unfolding fill_pd
fill_pd_lem zero pd i pts k al fits = ground arith
fill_pd_lem (suc n) pd i pts k al fits = ground (
  arith,
  fill_pd_lem n (update pd i (bit_or pts flag_present % u32_mod)) (i + 1) (pts + page_size) k
      (omega arith) (omega arith),
  bit_or_aligned pts flag_present al (omega arith),
)

pub write_pte-IsWalkable :
    (t : Tables) (slot : ℕ) (bt : VmPage) (i w : ℕ)
    → t.bts slot ≡ some bt
    → IsWalkable t
    → IsWalkable (write_pte t slot bt i w)
unfolding write_pte
write_pte-IsWalkable t slot bt i w e v = record {
  linked = λ s j b h q. ground (arith, v.linked s j bt h, v.linked s j b h);
  absent = λ s j h q. ground (arith, v.absent s j h);
  placed = λ s b q. ground (arith, v.placed s bt, v.placed s b);
}

-- Entering a fresh backing table: the directory entries of the other slots stay.
install-IsWalkable :
    (t : Tables) (slot pts : ℕ)
    → pts % page_size ≡ 0
    → pts + page_size * num_pt_per_bt ≤ u32_mod
    → IsWalkable t
    → IsWalkable (install_bt t slot pts)
install-IsWalkable t slot pts al fits v = record {
  linked = λ s j b h q.
      ground
        (arith, fill_pd_lem 8 t.pd (slot * 8) pts (s * 8 + j) al (omega arith), v.linked s j b h);
  absent = λ s j h q.
      ground
        (arith, fill_pd_lem 8 t.pd (slot * 8) pts (s * 8 + j) al (omega arith), v.absent s j h);
  placed = λ s b q. ground (arith, v.placed s b);
}

-- The tables after `find_bt`: those before, or with a fresh table that lies below 4 GiB.
pub find_bt_cases {ℓ} :
    (P : Tables → Type ℓ) (t : Tables) (d : Dma) (slot : ℕ)
    → IsBus d
    → P t
    → ((pts : ℕ)
        → t.bts slot ≡ none
        → pts % page_size ≡ 0
        → pts + page_size * num_pt_per_bt ≤ u32_mod
        → P (install_bt t slot pts))
    → P (find_bt t d slot).1
unfolding find_bt
find_bt_cases P t d slot bus same fresh = elim (Option-cases (t.bts slot)) [
  | inr (bt, e) ↦ rw (e, find_bt) same
  | inl e ↦
      rw (e, find_bt)
        (elim (Option-cases (d.bus d.calls)) [
          | inl f ↦ rw (f, alloc_bt) same
          | inr (pts, f) ↦
              elim (Bool-cases
                (ltb (u32_mod - 1) ((pts + page_size * num_pt_per_bt - 1) % u64_mod))) [
                  | inl g ↦ rw (f, g, alloc_bt) same
                  | inr g ↦
                      rw (f, g, alloc_bt)
                        (fresh pts e (bus d.calls pts f).0 (ground (arith, bus d.calls pts f)))
                ]
        ])
]

find_bt-IsWalkable :
    (t : Tables) (d : Dma) (slot : ℕ) → IsBus d → IsWalkable t → IsWalkable (find_bt t d slot).1
find_bt-IsWalkable t d slot b v =
    find_bt_cases IsWalkable t d slot b v λ pts e al fits. install-IsWalkable t slot pts al fits v

-- `lima_vm_map_page` keeps the directory in step with the backing tables, whatever it returns, if the
-- allocator answers with page-aligned addresses.
pub map_page-IsWalkable :
    (t : Tables) (d : Dma) (pa va : ℕ) → IsBus d → IsWalkable t → IsWalkable (map_page t d pa va).1
map_page-IsWalkable t d pa va b v =
    let found = find_bt-IsWalkable t d (pbe va) b v in
    map_page_cases IsWalkable t d pa va v found
      λ bt w e. write_pte-IsWalkable (find_bt t d (pbe va)).1 (pbe va) bt (bte va) w e found
