-- ===== src/Gem/Heap.antt =====
-- lima_heap_alloc: the growth of a heap buffer. Pages, arrays of them and the kernel's memory are
-- those of the GEM shmem helper, in Shmem.Pages.
pub mod Growth
pub mod Wires
pub mod Calls
pub mod Again
pub mod Count
mod Tests
use lima_freebsd.Base.{
  ℕ, zero, suc, ◌+◌, ◌-◌, ◌*◌, ◌/◌, ◌%◌, ◌^◌, min, List, [], ◌∷◌, Option, none, some, Bool, true,
  false, not, leb, ◌==◌, if◌then◌else◌, Errno, enomem, enospc, einval, Result, ok, err, Status,
  success,
}
use lima_freebsd.Base.Int.{u32_mod}
use lima_freebsd.Shmem.Logic.{npages, page_size}
use lima_freebsd.Shmem.Pages.{Memory, Entries, wire}

-- The fields of `struct lima_bo` that it uses; `sgt` is an address.
pub record Heap : Type 0 where
  pub size : ℕ
  pub heap_size : ℕ
  pub pages : Option Entries
  pub pages_use_count : ℕ
  pub sgt : Option ℕ

-- The module parameter `lima_heap_init_nr_pages`, and what the kernel answers: whether the object has
-- a swap object, the memory for the array and for the table, `shmem_read_mapping_page` at each index,
-- `sg_alloc_table_from_pages`, `dma_map_sgtable`; and lima_vm_map_bo, if `vm` is not NULL.
pub record Answers : Type 0 where
  pub init_nr_pages : ℕ
  pub has_f_shmem : Bool
  pub kvmalloc : Bool
  pub read_page : ℕ → Result ℕ
  pub sg_alloc : Status
  pub kmalloc : Option ℕ
  pub dma_map : Status
  pub vm_map : Option Status

-- `pages[i] = page`
unfoldable pub set_entry : ℕ → ℕ → Entries → Entries
set_entry i p [] = []
set_entry zero p (e ∷ es) = some p ∷ es
set_entry (suc i) p (e ∷ es) = e ∷ set_entry i p es

-- `__GFP_ZERO`
unfoldable pub null_entries : ℕ → Entries
null_entries zero = []
null_entries (suc n) = none ∷ null_entries n

-- The loop, for `n` pages from `i` on: the status, `i` where it ended, and the array.
unfoldable pub read_range :
    (ℕ → Result ℕ) → ℕ → ℕ → Entries → Memory → Status × ℕ × Entries × Memory
unfolding set_entry
read_range read zero i es s = (success, i, es, s)
read_range read (suc n) i es s = elim (read i) [
  | err e ↦ (err e, i, es, s)
  | ok p ↦ read_range read n (i + 1) (set_entry i p es) (wire p s)
]

-- `new_size` before and after `min`.
abbrev pub wanted_size : ℕ → Heap → ℕ
wanted_size init bo = if bo.heap_size == 0 then init * page_size % u32_mod else bo.heap_size * 2

abbrev pub new_size : ℕ → Heap → ℕ
new_size init bo = min (wanted_size init bo) bo.size

-- The array and the buffer that has it, where the array is there or can be allocated.
unfoldable pub page_array : Bool → Heap → Result (Entries × Heap)
unfolding null_entries
page_array kvmalloc bo = elim bo.pages [
  | some es ↦ ok (es, bo)
  | none ↦
      if not kvmalloc
      then err enomem
      else (let es = null_entries (npages bo.size) in
          ok (es, record bo { pages = some es; pages_use_count = 1 }))
]

-- From `dma_map_sgtable` on, with the table `t` of `bo->base.sgt`.
unfoldable pub map_heap : Answers → ℕ → ℕ → Heap → Status × Heap
map_heap a size t bo = elim (a.dma_map) [
  | err e ↦ (err e, record bo { sgt = none })
  | ok u ↦ elim (a.vm_map) [
    | none ↦ (success, record bo { sgt = some t; heap_size = size })
    | some r ↦ elim r [
      | err e ↦ (err e, record bo { sgt = none })
      | ok v ↦ (success, record bo { sgt = some t; heap_size = size })
    ]
  ]
]

-- From `sg_alloc_table_from_pages` on.
unfoldable pub build_sgt : Answers → ℕ → Heap → Status × Heap
unfolding map_heap
build_sgt a size bo = elim (a.sg_alloc) [
  | err e ↦ (err e, bo)
  | ok u ↦ elim bo.sgt [
    | some t ↦ map_heap a size t bo
    | none ↦ elim (a.kmalloc) [ none ↦ (err enomem, bo) | some t ↦ map_heap a size t bo ]
  ]
]

-- From the outcome of the loop on.
unfoldable pub after_read :
    Answers → ℕ → Heap → Status × ℕ × Entries × Memory → Status × Heap × Memory
after_read a size bo (err e, i, es, s) = (err e, record bo { pages = some es }, s)
after_read a size bo (ok u, i, es, s) =
    let (r, bo') = build_sgt a size (record bo { pages = some es }) in (r, bo', s)

-- From the array on, if there is one.
unfoldable pub populate : Answers → Result (Entries × Heap) → Heap → Memory → Status × Heap × Memory
populate a (err e) bo s = (err e, bo, s)
populate a (ok (es, bo')) bo s =
    let size = new_size a.init_nr_pages bo in
    let first = npages bo.heap_size in
    after_read a size bo' (read_range a.read_page (npages size - first) first es s)

unfoldable pub heap_alloc : Answers → Heap → Memory → Status × Heap × Memory
heap_alloc a bo s =
    if leb bo.size bo.heap_size
    then (err enospc, bo, s)
    else if not a.has_f_shmem
    then (err einval, bo, s)
    else populate a (page_array a.kvmalloc bo) bo s
