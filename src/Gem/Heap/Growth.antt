-- ===== src/Gem/Heap/Growth.antt =====
-- The sizes of a heap that grows, and what a call that fails leaves of it.
use lima_freebsd.Base.{
  ℕ, ◌-◌, ◌*◌, ◌<◌, ◌≤◌, ◌≡◌, refl, sym, ◌∙◌, subst, some, Bool, leb, arith, Bool-cases,
  Option-cases, Result-cases, inl, inr, ◌⊎◌, leb_false→lt, Errno, enomem, enospc, einval, Result,
  ok, err, Status, min, if◌then◌else◌, ◌==◌,
}
use lima_freebsd.Base.Int.{u32_mod}
use lima_freebsd.Shmem.Logic.{npages, page_size}
use lima_freebsd.Shmem.Pages.{Memory, Entries}
use lima_freebsd.Gem.Heap.{
  Heap, Answers, new_size, page_array, read_range, map_heap, build_sgt, after_read, populate,
  heap_alloc,
}

-- A call that succeeds has grown the heap, to twice the populated part or to the initial size, but to
-- no more than the buffer; it has a table. One that fails has not touched the populated size. Neither
-- changes the size of the buffer.
abbrev pub GrowPost : ℕ → Heap → Status → Heap → Type 0
GrowPost init bo (ok u) bo' =
    (bo'.heap_size ≡ min (if bo.heap_size == 0 then init * page_size else bo.heap_size * 2) bo.size)
    × (bo.heap_size < bo'.heap_size)
    × (bo'.heap_size ≤ bo.size)
    × (bo'.size ≡ bo.size)
GrowPost init bo (err e) bo' = (bo'.heap_size ≡ bo.heap_size) × (bo'.size ≡ bo.size)

-- The two outcomes of what follows the loop.
abbrev pub Built : ℕ → Heap → Status → Heap → Type 0
Built size bo (ok u) bo' = (bo'.heap_size ≡ size) × (bo'.size ≡ bo.size) × (bo'.pages ≡ bo.pages)
Built size bo (err e) bo' =
    (bo'.heap_size ≡ bo.heap_size) × (bo'.size ≡ bo.size) × (bo'.pages ≡ bo.pages)

map_heap-Built :
    (a : Answers) (size t : ℕ) (bo : Heap)
    → Built size bo (map_heap a size t bo).0 (map_heap a size t bo).1
unfolding map_heap
map_heap-Built a size t bo = elim (Result-cases a.dma_map) [
  | inr (e, f) ↦ rw f (refl, refl, refl)
  | inl (u, f) ↦ elim (Option-cases a.vm_map) [
    | inl g ↦ rw (f, g) (refl, refl, refl)
    | inr (r, g) ↦ elim (Result-cases r) [
      | inr (e, h) ↦ rw (f, g, h) (refl, refl, refl)
      | inl (v, h) ↦ rw (f, g, h) (refl, refl, refl)
    ]
  ]
]

-- For code that comes to `q`.
comes_to :
    (size : ℕ) (bo : Heap) {p q : Status × Heap}
    → p ≡ q
    → Built size bo q.0 q.1
    → Built size bo p.0 p.1
comes_to size bo e built = subst (λ q. Built size bo q.0 q.1) (sym e) built

pub build_sgt-Built :
    (a : Answers) (size : ℕ) (bo : Heap)
    → Built size bo (build_sgt a size bo).0 (build_sgt a size bo).1
unfolding build_sgt
build_sgt-Built a size bo = elim (Result-cases a.sg_alloc) [
  | inr (e, f) ↦ comes_to size bo {q = (err e, bo)} (ground (arith, f)) (refl, refl, refl)
  | inl (u, f) ↦ elim (Option-cases bo.sgt) [
    | inr (t, g) ↦
        comes_to size bo {q = map_heap a size t bo} (ground (arith, f, g))
          (map_heap-Built a size t bo)
    | inl g ↦ elim (Option-cases a.kmalloc) [
      | inl h ↦ comes_to size bo {q = (err enomem, bo)} (ground (arith, f, g, h)) (refl, refl, refl)
      | inr (t, h) ↦
          comes_to size bo {q = map_heap a size t bo} (ground (arith, f, g, h))
            (map_heap-Built a size t bo)
    ]
  ]
]

-- The buffer that `page_array` gives back has the sizes of the one it was given.
pub page_array_sizes :
    (kvmalloc : Bool) (bo bo' : Heap) (es : Entries)
    → page_array kvmalloc bo ≡ ok (es, bo')
    → (bo'.size ≡ bo.size) × (bo'.heap_size ≡ bo.heap_size) × (bo'.sgt ≡ bo.sgt)
unfolding page_array
page_array_sizes kv bo bo' es h = ground (arith, h)

after_read-Built :
    (a : Answers) (size : ℕ) (bo : Heap) (q : Status × ℕ × Entries × Memory)
    → let (r, bo', s') = after_read a size bo q in Built size (record bo { pages = some q.2 }) r bo'
unfolding after_read
after_read-Built a size bo (err e, i, es, s) = (refl, refl, refl)
after_read-Built a size bo (ok u, i, es, s) = build_sgt-Built a size (record bo { pages = some es })

grown :
    (init : ℕ) (bo bo' : Heap) (r : Status) (bo'' : Heap)
    → 0 < init
    → init * page_size < u32_mod
    → bo.heap_size < bo.size
    → bo'.size ≡ bo.size
    → bo'.heap_size ≡ bo.heap_size
    → Built (new_size init bo) bo' r bo''
    → GrowPost init bo r bo''
grown init bo bo' (ok u) bo'' pos small space e f (g, h, k) =
    (ground (arith, g), ground (arith, g), ground (arith, g), h ∙ e)
grown init bo bo' (err x) bo'' pos small space e f (g, h, k) = (g ∙ f, h ∙ e)

populate-Post :
    (a : Answers) (q : Result (Entries × Heap)) (bo : Heap) (s : Memory)
    → 0 < a.init_nr_pages
    → a.init_nr_pages * page_size < u32_mod
    → bo.heap_size < bo.size
    → page_array a.kvmalloc bo ≡ q
    → GrowPost a.init_nr_pages bo (populate a q bo s).0 (populate a q bo s).1
unfolding populate
populate-Post a (err e) bo s pos small space h = (refl, refl)
populate-Post a (ok (es, bo')) bo s pos small space h =
    let (e, f, g) = page_array_sizes a.kvmalloc bo bo' es h in
    grown a.init_nr_pages bo (record bo' { pages = some _ }) _ _ pos small space e f
      (after_read-Built a (new_size a.init_nr_pages bo) bo' (
        read_range a.read_page (npages (new_size a.init_nr_pages bo) - npages bo.heap_size)
          (npages bo.heap_size) es s))

-- A heap at its full size, or without a swap object, is refused at once.
pub heap_alloc-cases :
    (a : Answers) (bo : Heap) (s : Memory)
    → ((e : Errno) × (heap_alloc a bo s ≡ (err e, bo, s)))
      ⊎ ((bo.heap_size < bo.size)
          × (heap_alloc a bo s ≡ populate a (page_array a.kvmalloc bo) bo s))
unfolding heap_alloc
heap_alloc-cases a bo s = elim (Bool-cases (leb bo.size bo.heap_size)) [
  | inl full ↦ inl (enospc, ground (arith, full))
  | inr space ↦ elim (Bool-cases a.has_f_shmem) [
    | inr gone ↦ inl (einval, ground (arith, space, gone))
    | inl there ↦ inr (leb_false→lt bo.size bo.heap_size space, ground (arith, space, there))
  ]
]

-- lima_heap_alloc that succeeds has grown the heap, to twice the populated part or, the first time, to
-- the initial size, but to no more than the buffer; one that fails, at whatever point, has not touched
-- the populated size. Neither changes the size of the buffer. The initial size is at least a page and
-- below 4 GiB.
pub heap_alloc-Post :
    (a : Answers) (bo : Heap) (s : Memory)
    → 0 < a.init_nr_pages
    → a.init_nr_pages * page_size < u32_mod
    → let (r, bo', s') = heap_alloc a bo s in GrowPost a.init_nr_pages bo r bo'
heap_alloc-Post a bo s pos small = elim (heap_alloc-cases a bo s) [
  | inl (e, run) ↦ rw run (refl, refl)
  | inr (space, run) ↦ rw run (populate-Post a (page_array a.kvmalloc bo) bo s pos small space refl)
]
