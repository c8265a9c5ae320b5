-- ===== src/Gem/Heap/Calls.antt =====
-- The wirings over a whole call of lima_heap_alloc.
use lima_freebsd.Base.{
  ℕ, zero, suc, ◌+◌, ◌-◌, ◌<◌, ◌≤◌, ◌≡◌, refl, sym, ap, ◌∙◌, subst, length, none, some, Bool, arith,
  Option-cases, inl, inr, Result, ok, err, Status,
}
use lima_freebsd.Shmem.Logic.{npages}
use lima_freebsd.Shmem.Pages.{Memory, Entries}
use lima_freebsd.Shmem.Pages.Laws.{uses}
use lima_freebsd.Shmem.Object.Counts.{page_uses}
use lima_freebsd.Gem.Heap.{
  Heap, Answers, null_entries, new_size, page_array, after_read, populate, heap_alloc,
}
use lima_freebsd.Gem.Heap.Growth.{Built, build_sgt-Built, heap_alloc-cases, page_array_sizes}
use lima_freebsd.Gem.Heap.Wires.{IsEmptyFrom, Read, read_range-Read, IsPopulated, WiresPost}

null_entries-IsEmptyFrom : (n i : ℕ) → IsEmptyFrom i (null_entries n)
unfolding null_entries
null_entries-IsEmptyFrom zero i = tt
null_entries-IsEmptyFrom (suc n) zero = (refl, null_entries-IsEmptyFrom n zero)
null_entries-IsEmptyFrom (suc n) (suc i) = null_entries-IsEmptyFrom n i

length-null_entries : (n : ℕ) → length (null_entries n) ≡ n
unfolding null_entries
length-null_entries zero = refl
length-null_entries (suc n) = omega (arith, length-null_entries n)

uses-null_entries : (p n : ℕ) → uses p (null_entries n) ≡ 0
unfolding null_entries uses
uses-null_entries p zero = refl
uses-null_entries p (suc n) = uses-null_entries p n

-- The array that a call works on, beside the one of the buffer.
record Array (base : ℕ → ℕ) (bo : Heap) (s : Memory) (es : Entries) (bo' : Heap) : Type 0 where
  pub wired : (p : ℕ) → s.wires p ≡ base p + uses p es
  pub empty : IsEmptyFrom (npages bo.heap_size) es
  pub whole : length es ≡ npages bo.size
  pub same_size : bo'.size ≡ bo.size

some-inj : {es fs : Entries} → some es ≡ some fs → es ≡ fs
some-inj h = cc

page_array-some :
    (kvmalloc : Bool) (bo bo' : Heap) (es fs : Entries)
    → bo.pages ≡ some fs
    → page_array kvmalloc bo ≡ ok (es, bo')
    → fs ≡ es
unfolding page_array
page_array-some kv bo bo' es fs f h = ground (arith, f, h)

page_array-none :
    (kvmalloc : Bool) (bo bo' : Heap) (es : Entries)
    → bo.pages ≡ none
    → page_array kvmalloc bo ≡ ok (es, bo')
    → null_entries (npages bo.size) ≡ es
unfolding page_array
page_array-none kv bo bo' es f h = ground (arith, f, h)

page_array-Array :
    (base : ℕ → ℕ) (kvmalloc : Bool) (bo : Heap) (s : Memory) (es : Entries) (bo' : Heap)
    → IsPopulated base bo s
    → page_array kvmalloc bo ≡ ok (es, bo')
    → Array base bo s es bo'
page_array-Array base kv bo s es bo' v h =
    let (e, f, g) = page_array_sizes kv bo bo' es h in
    elim (Option-cases bo.pages) [
      | inr (fs, f) ↦
          let same = page_array-some kv bo bo' es fs f h in
          record {
            wired = λ p. ground (arith, v.wired p, f, same);
            empty = v.empty es (f ∙ ap some same);
            whole = v.whole es (f ∙ ap some same);
            same_size = e;
          }
      | inl f ↦
          let same = page_array-none kv bo bo' es f h in
          record {
            wired = λ p. ground (
              arith,
              v.wired p,
              f,
              sym (uses-null_entries p (npages bo.size)) ∙ ap (uses p) same,
            );
            empty = subst (IsEmptyFrom _) same (null_entries-IsEmptyFrom (npages bo.size) _);
            whole = ap length (sym same) ∙ length-null_entries (npages bo.size);
            same_size = e;
          }
    ]

-- What `build_sgt` leaves keeps the array.
Built-WiresPost :
    (base : ℕ → ℕ) (size : ℕ) (es : Entries) (bo : Heap) (s : Memory) (r : Status) (b : Heap)
    → bo.pages ≡ some es
    → ((p : ℕ) → s.wires p ≡ base p + uses p es)
    → IsEmptyFrom (npages size) es
    → length es ≡ npages bo.size
    → Built size bo r b
    → WiresPost base r b s
Built-WiresPost base size es bo s (err e) b f w h l (g, i, k) =
    λ p. w p ∙ ap (λ o. base p + page_uses p o) (sym (k ∙ f))
Built-WiresPost base size es bo s (ok u) b f w h l (g, i, k) = record {
  wired = λ p. w p ∙ ap (λ o. base p + page_uses p o) (sym (k ∙ f));
  empty = λ fs e.
      subst (λ n. IsEmptyFrom (npages n) fs) (sym g)
        (subst (IsEmptyFrom (npages size)) (some-inj (sym (k ∙ f) ∙ e)) h);
  whole = λ fs e. ap length (sym (some-inj (sym (k ∙ f) ∙ e))) ∙ l ∙ ap npages (sym i);
}

after_read-WiresPost :
    (base : ℕ → ℕ) (a : Answers) (size : ℕ) (bo bo' : Heap) (s : Memory) (es : Entries)
    (q : Status × ℕ × Entries × Memory) (n : ℕ)
    → Array base bo s es bo'
    → Read n (npages bo.heap_size) es s q
    → npages size ≡ npages bo.heap_size + n
    → let (r, b, s') = after_read a size bo' q in WiresPost base r b s'
unfolding after_read
after_read-WiresPost base a size bo bo' s es (err e, i, es', s') n v r e2 =
    λ p. omega (arith, v.wired p, r.wired p)
after_read-WiresPost base a size bo bo' s es (ok u, i, es', s') n v r e2 =
    Built-WiresPost base size es' (record bo' { pages = some es' }) s' _ _ refl
      (λ p. omega (arith, v.wired p, r.wired p))
      (subst (λ m. IsEmptyFrom m es') (r.ended refl ∙ sym e2) r.empty)
      (r.same_length ∙ v.whole ∙ ap npages (sym v.same_size))
      (build_sgt-Built a size (record bo' { pages = some es' }))

populate-WiresPost :
    (base : ℕ → ℕ) (a : Answers) (q : Result (Entries × Heap)) (bo : Heap) (s : Memory)
    → IsPopulated base bo s
    → npages bo.heap_size ≤ npages (new_size a.init_nr_pages bo)
    → page_array a.kvmalloc bo ≡ q
    → let (r, b, s') = populate a q bo s in WiresPost base r b s'
unfolding populate
populate-WiresPost base a (err e) bo s v more h = v.wired
populate-WiresPost base a (ok (es, bo')) bo s v more h =
    let size = new_size a.init_nr_pages bo in
    let w = page_array-Array base a.kvmalloc bo s es bo' v h in
    after_read-WiresPost base a size bo bo' s es _ (npages size - npages bo.heap_size) w
      (read_range-Read a.read_page (npages size - npages bo.heap_size) (npages bo.heap_size) es s
        w.empty (omega (arith, w.whole, more)))
      (omega (arith, more))

-- A growth of a heap whose array is NULL from the populated size on keeps every page wired as often as
-- others have it and once for each of its entries, whether it succeeds or fails; and if it succeeds,
-- the array is NULL from the new size on, and as long as the buffer.
pub heap_alloc-WiresPost :
    (base : ℕ → ℕ) (a : Answers) (bo : Heap) (s : Memory)
    → IsPopulated base bo s
    → let (r, b, s') = heap_alloc a bo s in WiresPost base r b s'
heap_alloc-WiresPost base a bo s v = elim (heap_alloc-cases a bo s) [
  | inl (e, run) ↦ rw run (v.wired)
  | inr (space, run) ↦ rw run (
      populate-WiresPost base a (page_array a.kvmalloc bo) bo s v (larger a.init_nr_pages bo space)
        refl)
]
  where
    larger :
        (init : ℕ) (bo : Heap)
        → bo.heap_size < bo.size
        → npages bo.heap_size ≤ npages (new_size init bo)
    larger init bo space = ground (arith, space)
