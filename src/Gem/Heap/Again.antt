-- ===== src/Gem/Heap/Again.antt =====
-- The loop of lima_heap_alloc over pages that the array already holds, as a growth that failed leaves
-- them.
use lima_freebsd.Base.{
  ℕ, zero, suc, ◌+◌, ◌<◌, ◌≤◌, ◌≡◌, refl, ap, ◌∙◌, [], ◌∷◌, get_elem?, some, ◌==◌, if◌then◌else◌,
  arith, Result, ok, success,
}
use lima_freebsd.Shmem.Pages.{Memory, Entries, wire}
use lima_freebsd.Gem.Heap.{set_entry, read_range}
use lima_freebsd.Gem.Heap.Wires.{goes_on}

set_entry-same : (i q : ℕ) (es : Entries) → get_elem? es i ≡ some (some q) → set_entry i q es ≡ es
unfolding set_entry
set_entry-same i q [] h = refl
set_entry-same zero q (e ∷ es) h = ground arith
set_entry-same (suc i) q (e ∷ es) h = ap (λ t. e ∷ t) (set_entry-same i q es h)

-- How often a page is among the `n` pages from `i` on.
unfoldable pub hits : (ℕ → ℕ) → ℕ → ℕ → ℕ → ℕ
hits page zero i p = 0
hits page (suc n) i p = (if page i == p then 1 else 0) + hits page n (i + 1) p

-- Where the array already holds, at each index, the page that the swap object answers with, the loop
-- succeeds and leaves the array as it was, but wires every page of the range once more than before.
pub read_range-again :
    (read : ℕ → Result ℕ) (page : ℕ → ℕ) (n i : ℕ) (es : Entries) (s : Memory) (p : ℕ)
    → ((k : ℕ) → i ≤ k → k < i + n → get_elem? es k ≡ some (some (page k)))
    → ((k : ℕ) → i ≤ k → k < i + n → read k ≡ ok (page k))
    → (s' : Memory) × (read_range read n i es s ≡ (success, i + n, es, s'))
      × (s'.wires p ≡ s.wires p + hits page n i p)
unfolding read_range hits wire
read_range-again read page zero i es s p held reads =
    (s, ap (λ j. (success, j, es, s)) (omega arith), omega arith)
read_range-again read page (suc n) i es s p held reads =
    let same = set_entry-same i (page i) es (held i (omega arith) (omega arith)) in
    let (s', run, w) =
      read_range-again read page n (i + 1) es (wire (page i) s) p
        (λ k lo hi. held k (omega (arith, lo)) (omega (arith, hi)))
        (λ k lo hi. reads k (omega (arith, lo)) (omega (arith, hi))) in
    (
      s',
      goes_on read n i es s (page i) (reads i (omega arith) (omega arith))
          ∙ ap (λ e. read_range read n (i + 1) e (wire (page i) s)) same
          ∙ run
          ∙ ap (λ j. (success, j, es, s')) (omega arith),
      ground (arith, w),
    )
