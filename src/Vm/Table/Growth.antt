-- ===== src/Vm/Table/Growth.antt =====
-- A call of lima_vm_map_page takes no backing table away, and a successful one leaves the slot of its
-- address with one.
use lima_freebsd.Base.{ℕ, ◌≡◌, arith, true, is_some, Result-cases, inl, inr, success}
use lima_freebsd.Vm.Table.{pbe, bte, VmPage, Tables, Dma, write_pte, find_bt, map_page}
use lima_freebsd.Vm.Table.Mapping.{map_page_cases}

find_bt_grows :
    (t : Tables) (d : Dma) (slot s : ℕ)
    → is_some (t.bts s) ≡ true
    → is_some ((find_bt t d slot).1.bts s) ≡ true
unfolding find_bt
find_bt_grows t d slot s h = ground arith

write_pte_grows :
    (t : Tables) (slot : ℕ) (bt : VmPage) (i w s : ℕ)
    → is_some (t.bts s) ≡ true
    → is_some ((write_pte t slot bt i w).bts s) ≡ true
unfolding write_pte
write_pte_grows t slot bt i w s h = ground arith

pub map_page_grows :
    (t : Tables) (d : Dma) (pa va s : ℕ)
    → is_some (t.bts s) ≡ true
    → is_some ((map_page t d pa va).1.bts s) ≡ true
map_page_grows t d pa va s h =
    let found = find_bt_grows t d (pbe va) s h in
    map_page_cases (λ t'. is_some (t'.bts s) ≡ true) t d pa va h found
      λ bt w e. write_pte_grows (find_bt t d (pbe va)).1 (pbe va) bt (bte va) w s found

pub map_page_backs :
    (t : Tables) (d : Dma) (pa va : ℕ)
    → (map_page t d pa va).0 ≡ success
    → is_some ((map_page t d pa va).1.bts (pbe va)) ≡ true
unfolding map_page write_pte
map_page_backs t d pa va h = elim (Result-cases (find_bt t d (pbe va)).0) [
  | inl (bt, e) ↦ ground arith
  | inr (x, e) ↦ ground arith
]

-- The allocator's answers to come are part of the environment.
pub bus-map_page : (t : Tables) (d : Dma) (pa va : ℕ) → (map_page t d pa va).2.bus ≡ d.bus
unfolding map_page find_bt
bus-map_page t d pa va = ground arith
