-- ===== src/Vm/Table/Mapping.antt =====
-- lima_vm_map_page against lima_vm_probe_pte: what a mapping call changes in the table, and what it
-- leaves alone.
use lima_freebsd.Base.{
  ℕ, ◌+◌, ◌-◌, ◌/◌, ◌%◌, ◌<◌, ◌≡◌, inl, inr, some, true, arith, bit_or, ltb, ◌==◌, if◌then◌else◌,
  Errno, ok, err, success, Result-cases, Bool-cases,
}
use lima_freebsd.Vm.Table.{
  u32_mod, page_size, pbe, bte, flags_cache, VmPage, Tables, Dma, remove_first, probe_pte,
  write_pte, find_bt, map_page,
}
use lima_freebsd.Vm.Table.Geometry.{same_page, slot_of_page}

-- The word that the driver's own walk reads at an address; 0 where nothing is mapped.
abbrev pub entry : Tables → ℕ → ℕ
entry t va = (probe_pte t va).0

pub entry-write :
    (t : Tables) (bt : VmPage) (va v w : ℕ)
    → va < u32_mod
    → v < u32_mod
    → t.bts (pbe va) ≡ some bt
    → entry (write_pte t (pbe va) bt (bte va) w) v
      ≡ (if v / page_size == va / page_size then w else entry t v)
unfolding probe_pte write_pte
entry-write t bt va v w h k e = ground (arith, same_page va v, slot_of_page va v)

pub present-write :
    (t : Tables) (bt : VmPage) (va w : ℕ)
    → va < u32_mod
    → (probe_pte (write_pte t (pbe va) bt (bte va) w) va).1 ≡ true
unfolding probe_pte write_pte
present-write t bt va w h = ground arith

pub entry-find_bt : (t : Tables) (d : Dma) (slot v : ℕ) → entry (find_bt t d slot).1 v ≡ entry t v
unfolding probe_pte find_bt
entry-find_bt t d slot v = ground arith

pub find_bt_ok :
    (t : Tables) (d : Dma) (slot : ℕ) (bt : VmPage)
    → (find_bt t d slot).0 ≡ ok bt
    → (find_bt t d slot).1.bts slot ≡ some bt
unfolding find_bt
find_bt_ok t d slot bt h = ground arith

pub find_bt_err :
    (t : Tables) (d : Dma) (slot : ℕ) (e : Errno)
    → (find_bt t d slot).0 ≡ err e
    → ((find_bt t d slot).1 ≡ t) × ((find_bt t d slot).2.live ≡ d.live)
unfolding find_bt remove_first
find_bt_err t d slot e h = ground arith

-- A call of lima_vm_map_page that succeeds makes the page of `va` read as the bus address with the
-- cache flags, and every other page of the 32-bit space read as before.
pub entry-map_page :
    (t : Tables) (d : Dma) (pa va v : ℕ)
    → va < u32_mod
    → v < u32_mod
    → (map_page t d pa va).0 ≡ success
    → entry (map_page t d pa va).1 v
      ≡ (if v / page_size == va / page_size then bit_or pa flags_cache % u32_mod else entry t v)
unfolding map_page
entry-map_page t d pa va v hva hv h = elim (Result-cases (find_bt t d (pbe va)).0) [
  | inl (bt, e) ↦ ground (
    arith,
    find_bt_ok t d (pbe va) bt e,
    entry-find_bt t d (pbe va) v,
    entry-write (find_bt t d (pbe va)).1 bt va v (bit_or pa flags_cache % u32_mod) hva hv,
  )
  | inr (x, e) ↦ ground arith
]

-- A call of lima_vm_map_page that fails leaves the tables as they were, and as many coherent pages
-- allocated.
pub map_page_err :
    (t : Tables) (d : Dma) (pa va : ℕ) (e : Errno)
    → (map_page t d pa va).0 ≡ err e
    → ((map_page t d pa va).1 ≡ t) × ((map_page t d pa va).2.live ≡ d.live)
unfolding map_page
map_page_err t d pa va e h = ground (arith, find_bt_err t d (pbe va) e)

-- The three ways through `lima_vm_map_page`, for a property of the tables that it leaves.
pub map_page_cases {ℓ} :
    (P : Tables → Type ℓ) (t : Tables) (d : Dma) (pa va : ℕ)
    → P t
    → P (find_bt t d (pbe va)).1
    → ((bt : VmPage) (w : ℕ)
        → (find_bt t d (pbe va)).1.bts (pbe va) ≡ some bt
        → P (write_pte (find_bt t d (pbe va)).1 (pbe va) bt (bte va) w))
    → P (map_page t d pa va).1
unfolding map_page
map_page_cases P t d pa va refused failed written =
    elim (Bool-cases (ltb (u32_mod - 1 - page_size + 1) pa)) [
      | inl above ↦ rw (above, map_page) refused
      | inr below ↦ elim (Result-cases (find_bt t d (pbe va)).0) [
        | inl (bt, e) ↦ rw (below, e, map_page) (written bt _ (find_bt_ok t d (pbe va) bt e))
        | inr (x, e) ↦ rw (below, e, map_page) failed
      ]
    ]
