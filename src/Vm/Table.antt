-- ===== src/Vm/Table.antt =====
-- lima_vm.c: the two-level page tables of one address space, and the functions that read and write
-- them. A table is a function of the index; addresses are numbers, and a `u32` is one below 2 ^ 32.
-- `dma_alloc_coherent` is not part of the repository: its answers, one for each call, are the field
-- `bus` of `Dma`, which also keeps the addresses that are allocated and not yet freed.
pub mod Geometry
pub mod Mapping
pub mod Walk
pub mod Unmap
pub mod Growth
pub use lima_freebsd.Base.Int.{u32_mod}
use lima_freebsd.Base.{
  ℕ, zero, suc, ◌+◌, ◌-◌, ◌*◌, ◌/◌, ◌%◌, ◌^◌, Option, none, some, List, [], ◌∷◌, Bool, true, false,
  ◌||◌, not, bit_or, ltb, leb, ◌==◌, if◌then◌else◌, is_some, update, Errno, enomem, erange, Result,
  ok, err, Status, success, Run, done, fault, out_of_fuel,
}

abbrev pub u64_mod : ℕ
u64_mod = 2 ^ 64

abbrev pub page_size : ℕ
page_size = 4096

abbrev pub num_pt_per_bt : ℕ
num_pt_per_bt = 8

abbrev pub num_bt : ℕ
num_bt = 128

abbrev pub reserve_dlbu : ℕ
reserve_dlbu = 0xfff00000

abbrev pub flag_present : ℕ
flag_present = 1

-- PRESENT, READ, WRITE, OVERRIDE_CACHE, WRITE_CACHEABLE, WRITE_BUFFERABLE, READ_CACHEABLE and
-- READ_ALLOCATE: bits 0 to 4 and 6 to 8.
abbrev pub flags_cache : ℕ
flags_cache = 0x1df

-- LIMA_PDE, LIMA_PTE, LIMA_PBE, LIMA_BTE
abbrev pub pde : ℕ → ℕ
pde va = va / 2 ^ 22

abbrev pub pte : ℕ → ℕ
pte va = va % 2 ^ 22 / 2 ^ 12

abbrev pub pbe : ℕ → ℕ
pbe va = va / 2 ^ 25

abbrev pub bte : ℕ → ℕ
bte va = va % 2 ^ 25 / 2 ^ 12

-- `struct lima_vm_page`, where `cpu` is not NULL
pub record VmPage : Type 0 where
  pub cpu : ℕ → ℕ
  pub dma : ℕ

-- The page directory's words, and the backing tables; `none` is a slot whose `cpu` is NULL.
pub record Tables : Type 0 where
  pub pd : ℕ → ℕ
  pub bts : ℕ → Option VmPage

pub record Dma : Type 0 where
  pub bus : ℕ → Option ℕ
  pub calls : ℕ
  pub live : List ℕ

unfoldable pub remove_first : ℕ → List ℕ → List ℕ
remove_first a [] = []
remove_first a (x ∷ xs) = if x == a then xs else x ∷ remove_first a xs

-- The memory is zeroed (`__GFP_ZERO`), which the callers' tables say.
unfoldable pub dma_alloc : Dma → Option ℕ × Dma
dma_alloc d = elim (d.bus d.calls) [
  | none ↦ (none, record d { calls = d.calls + 1 })
  | some a ↦ (some a, record d { calls = d.calls + 1; live = a ∷ d.live })
]

unfoldable pub dma_free : ℕ → Dma → Dma
dma_free a d = record d { live = remove_first a d.live }

-- The word and `*bt_present`.
unfoldable pub probe_pte : Tables → ℕ → ℕ × Bool
probe_pte t va =
    if leb num_bt (pbe va) || not (is_some (t.bts (pbe va)))
    then (0, false)
    else elim (t.bts (pbe va)) [ none ↦ (0, false) | some bt ↦ (bt.cpu (bte va), true) ]

unfoldable pub write_pte : Tables → ℕ → VmPage → ℕ → ℕ → Tables
write_pte t slot bt i w = record t {
  bts = update t.bts slot (some (record bt { cpu = update bt.cpu i w }));
}

-- `for (j = 0; j < n; j++) { pd[j] = pts | LIMA_VM_FLAG_PRESENT; pts += LIMA_PAGE_SIZE; }`
unfoldable pub fill_pd : ℕ → (ℕ → ℕ) → ℕ → ℕ → ℕ → ℕ
fill_pd zero pd i pts = pd
fill_pd (suc n) pd i pts =
    fill_pd n (update pd i (bit_or pts flag_present % u32_mod)) (i + 1) (pts + page_size)

abbrev pub install_bt : Tables → ℕ → ℕ → Tables
install_bt t slot pts = record {
  pd = fill_pd num_pt_per_bt t.pd (slot * num_pt_per_bt) pts;
  bts = update t.bts slot (some (record { cpu = λ _. 0; dma = pts }));
}

-- The backing table of an empty slot: allocated, refused above 4 GiB, entered in the directory.
unfoldable pub alloc_bt : Tables → Dma → ℕ → Result VmPage × Tables × Dma
unfolding dma_alloc dma_free
alloc_bt t d slot =
    let (r, d') = dma_alloc d in
    elim r [
      | none ↦ (err enomem, t, d')
      | some pts ↦
          if ltb (u32_mod - 1) ((pts + page_size * num_pt_per_bt - 1) % u64_mod)
          then (err erange, t, dma_free pts d')
          else (ok (record { cpu = λ _. 0; dma = pts }), install_bt t slot pts, d')
    ]

unfoldable pub find_bt : Tables → Dma → ℕ → Result VmPage × Tables × Dma
unfolding alloc_bt
find_bt t d slot = elim (t.bts slot) [ some bt ↦ (ok bt, t, d) | none ↦ alloc_bt t d slot ]

unfoldable pub map_page : Tables → Dma → ℕ → ℕ → Status × Tables × Dma
map_page t d pa va =
    if ltb (u32_mod - 1 - page_size + 1) pa
    then (err erange, t, d)
    else (let (r, t', d') = find_bt t d (pbe va) in
        elim r [
          | err e ↦ (err e, t', d')
          | ok bt ↦
              (success, write_pte t' (pbe va) bt (bte va) (bit_or pa flags_cache % u32_mod), d')
        ])

-- `for (addr = start; addr <= end; addr += LIMA_PAGE_SIZE)` over `u32`, with fuel. A slot without a
-- table is a write through NULL.
unfoldable pub unmap_from : ℕ → Tables → ℕ → ℕ → Run Tables
unfolding write_pte
unmap_from zero t addr end = out_of_fuel
unmap_from (suc fuel) t addr end = elim (leb addr end) [
  | false ↦ done t
  | true ↦ elim (t.bts (pbe addr)) [
    | none ↦ fault
    | some bt ↦
        unmap_from fuel (write_pte t (pbe addr) bt (bte addr) 0) ((addr + page_size) % u32_mod) end
  ]
]

-- One round for each page of the 32-bit space, and one to see the end.
unfoldable pub unmap_fuel : ℕ
unmap_fuel = 2 ^ 20 + 1

unfoldable pub unmap_range : Tables → ℕ → ℕ → Run Tables
unfolding unmap_from unmap_fuel
unmap_range t start end = unmap_from unmap_fuel t start end
