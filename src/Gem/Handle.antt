-- ===== src/Gem/Handle.antt =====
-- lima_gem.c: lima_gem_create_handle, and what the driver's object functions check before they call
-- the helper.
pub mod Life
mod Tests
use lima_freebsd.Base.{
  ℕ, ◌+◌, Option, none, some, Bool, true, false, not, ◌==◌, if◌then◌else◌, Errno, einval, enoent,
  Result, ok, err, Status, success, Run, done, and_then,
}
use lima_freebsd.Shmem.Pages.{Memory, Kernel}
use lima_freebsd.Shmem.Object.{Object, pin, vmap, mmap, get_pages_sgt}
use lima_freebsd.Shmem.Create.{Ledger, create, hand_out}
use lima_freebsd.Gem.Heap.{Heap, heap_alloc}

-- The answers to the creation, to a heap's growth or to the pages and the table of another buffer
-- (the lock, the pages, the table and its mapping), and of `drm_gem_handle_create`.
pub record Answers : Type 0 where
  pub create : lima_freebsd.Shmem.Create.Answers
  pub heap : lima_freebsd.Gem.Heap.Answers
  pub lock : Status
  pub kernel : Kernel
  pub pages_to_sg : Result ℕ
  pub mapped : Status
  pub handle : Status

-- A new buffer as lima_heap_alloc sees it, and the object after it.
abbrev pub heap_of : Object → Heap
heap_of o = record {
  size = o.size;
  heap_size = 0;
  pages = o.pages;
  pages_use_count = o.pages_use_count;
  sgt = o.sgt;
}

abbrev pub of_heap : Heap → Object → Object
of_heap h o = record o { pages = h.pages; pages_use_count = h.pages_use_count; sgt = h.sgt }

-- `err`, where it is not 0, else the call of `drm_gem_handle_create`.
abbrev pub after : {A : Type 0} → Result A → Status → Status
after (ok a) handle = handle
after (err e) handle = err e

-- From the object on.
unfoldable pub fill :
    Bool → Answers → Object → Memory → Ledger → Run (Result Object × Memory × Ledger)
fill true a o m l =
    let (r, h, m') = heap_alloc a.heap (heap_of o) m in
    hand_out (after r a.handle) (of_heap h o) m' l
fill false a o m l =
    and_then (get_pages_sgt a.lock a.kernel a.pages_to_sg a.mapped o m)
      λ q. hand_out (after q.0 a.handle) q.1 q.2 l

-- lima_gem_create_handle; `is_heap` is `flags & LIMA_BO_FLAG_HEAP`.
unfoldable pub create_handle :
    Bool → Answers → ℕ → Memory → Ledger → Run (Result Object × Memory × Ledger)
unfolding fill
create_handle is_heap a size m l =
    let (r, l1) = create false a.create size l in
    elim r [ err e ↦ done (err e, m, l1) | ok o ↦ fill is_heap a o m l1 ]

-- lima_gem_pin, lima_gem_vmap and lima_gem_mmap, with `bo->heap_size`.
unfoldable pub gem_pin : ℕ → Status → Kernel → Object → Memory → Status × Object × Memory
unfolding pin
gem_pin heap_size lock k o m = if not (heap_size == 0) then (err einval, o, m) else pin lock k o m

unfoldable pub gem_vmap :
    ℕ
    → Kernel
    → Result (ℕ × Bool)
    → Option ℕ
    → Object
    → Memory
    → Run (Result (Option ℕ) × Object × Memory)
unfolding vmap
gem_vmap heap_size k import_vmap mapped o m =
    if not (heap_size == 0) then done (err einval, o, m) else vmap k import_vmap mapped o m

unfoldable pub gem_mmap : ℕ → Kernel → Object → Memory → Status × Object × Memory
unfolding mmap
gem_mmap heap_size k o m = if not (heap_size == 0) then (err einval, o, m) else mmap k o m
