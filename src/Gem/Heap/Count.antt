-- ===== src/Gem/Heap/Count.antt =====
-- lima_heap_alloc gives the page array of a buffer one user, whatever comes after.
use lima_freebsd.Base.{
  ℕ, ◌≡◌, refl, sym, ap, ◌∙◌, Option, none, some, Bool, arith, inl, inr, Option-cases, Result, ok,
  err, Status,
}
use lima_freebsd.Shmem.Pages.{Memory, Entries}
use lima_freebsd.Gem.Heap.{Heap, page_array, heap_alloc, populate, after_read, build_sgt, map_heap}
use lima_freebsd.Gem.Heap.Growth.{heap_alloc-cases}

abbrev pub has {ℓ} : {A : Type ℓ} → Option A → ℕ
has none = 0
has (some a) = 1

abbrev Kept : Heap → Heap → Type 0
Kept h h' = (h'.pages ≡ h.pages) × (h'.pages_use_count ≡ h.pages_use_count)

map_heap-Kept :
    (a : lima_freebsd.Gem.Heap.Answers) (size t : ℕ) (h : Heap) → Kept h (map_heap a size t h).1
unfolding map_heap
map_heap-Kept a size t h = ground arith

build_sgt-Kept :
    (a : lima_freebsd.Gem.Heap.Answers) (size : ℕ) (h : Heap) → Kept h (build_sgt a size h).1
unfolding build_sgt
build_sgt-Kept a size h = elim (Option-cases h.sgt) [
  | inr (t, e) ↦ ground (arith, map_heap-Kept a size t h)
  | inl e ↦ elim (Option-cases a.kmalloc) [
    | inr (t, f) ↦ ground (arith, map_heap-Kept a size t h)
    | inl f ↦ ground arith
  ]
]

after_read_count :
    (a : lima_freebsd.Gem.Heap.Answers) (size : ℕ) (h : Heap) (q : Status × ℕ × Entries × Memory)
    → h.pages_use_count ≡ 1
    → let (r, h', m') = after_read a size h q in h'.pages_use_count ≡ has h'.pages
unfolding after_read
after_read_count a size h (err e, i, es, m) one = one
after_read_count a size h (ok u, i, es, m) one =
    let k = build_sgt-Kept a size (record h { pages = some es }) in k.1 ∙ one ∙ ap has (sym k.0)

page_array_count :
    (kvmalloc : Bool) (h h' : Heap) (es : Entries)
    → h.pages_use_count ≡ has h.pages
    → page_array kvmalloc h ≡ ok (es, h')
    → h'.pages_use_count ≡ 1
unfolding page_array
page_array_count kvmalloc h h' es e f = ground arith

populate_count :
    (a : lima_freebsd.Gem.Heap.Answers) (q : Result (Entries × Heap)) (h : Heap) (m : Memory)
    → h.pages_use_count ≡ has h.pages
    → page_array a.kvmalloc h ≡ q
    → let (r, h', m') = populate a q h m in h'.pages_use_count ≡ has h'.pages
unfolding populate
populate_count a (err e) h m c f = c
populate_count a (ok (es, h1)) h m c f =
    after_read_count a _ h1 _ (page_array_count a.kvmalloc h h1 es c f)

-- A growth gives the array one user.
pub heap_alloc_count :
    (a : lima_freebsd.Gem.Heap.Answers) (h : Heap) (m : Memory)
    → h.pages_use_count ≡ has h.pages
    → let (r, h', m') = heap_alloc a h m in h'.pages_use_count ≡ has h'.pages
heap_alloc_count a h m e = elim (heap_alloc-cases a h m) [
  | inl (x, run) ↦ rw run e
  | inr (space, run) ↦ rw run (populate_count a (page_array a.kvmalloc h) h m e refl)
]
