-- ===== src/Vm/Table/Geometry.antt =====
-- The address arithmetic of lima_vm.c: LIMA_PDE, LIMA_PTE, LIMA_PBE and LIMA_BTE.
use lima_freebsd.Base.{ℕ, ◌+◌, ◌*◌, ◌/◌, ◌%◌, ◌<◌, ◌≡◌, arith}
use lima_freebsd.Vm.Table.{u32_mod, page_size, num_pt_per_bt, num_bt, pde, pte, pbe, bte}

-- The directory entry of an address is one of the eight of its backing table, and the word of the
-- backing table is the word of the page table that this entry stands for.
pub slot_split :
    (va : ℕ)
    → (pde va ≡ pbe va * num_pt_per_bt + pde va % num_pt_per_bt)
      × (bte va ≡ pde va % num_pt_per_bt * 1024 + pte va)
slot_split va = omega arith

pub pbe-lt : (va : ℕ) → va < u32_mod → pbe va < num_bt
pbe-lt va h = omega arith

-- Slot and index determine the page.
pub same_page : (a b : ℕ) → pbe a ≡ pbe b → bte a ≡ bte b → a / page_size ≡ b / page_size
same_page a b p q = omega arith

pub slot_of_page : (a b : ℕ) → a / page_size ≡ b / page_size → (pbe a ≡ pbe b) × (bte a ≡ bte b)
slot_of_page a b h = omega arith
