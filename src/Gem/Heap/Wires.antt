-- ===== src/Gem/Heap/Wires.antt =====
-- The pages of a heap that grows: which are wired, and how often.
use lima_freebsd.Base.{
  ℕ, zero, suc, ◌+◌, ◌<◌, ◌≤◌, ◌≡◌, refl, sym, ◌∙◌, subst, [], ◌∷◌, length, none, some, ◌==◌,
  if◌then◌else◌, arith, Result-cases, inl, inr, Errno, Result, ok, err, Status, success,
}
use lima_freebsd.Shmem.Logic.{npages}
use lima_freebsd.Shmem.Pages.{Memory, Entries, wire}
use lima_freebsd.Shmem.Pages.Laws.{uses}
use lima_freebsd.Shmem.Object.Counts.{page_uses}
use lima_freebsd.Gem.Heap.{Heap, set_entry, read_range}

-- The entries from an index on.
abbrev pub IsEmptyFrom : ℕ → Entries → Type 0
IsEmptyFrom i [] = Unit
IsEmptyFrom zero (e ∷ es) = (e ≡ none) × IsEmptyFrom zero es
IsEmptyFrom (suc i) (e ∷ es) = IsEmptyFrom i es

uses-set_entry :
    (i q p : ℕ) (es : Entries)
    → IsEmptyFrom i es
    → i < length es
    → uses p (set_entry i q es) ≡ uses p es + (if q == p then 1 else 0)
unfolding uses set_entry
uses-set_entry i q p [] h low = absurd (omega arith)
uses-set_entry zero q p (e ∷ es) (h, t) low = rw h (omega arith)
uses-set_entry (suc i) q p (none ∷ es) h low = uses-set_entry i q p es h (omega arith)
uses-set_entry (suc i) q p (some e ∷ es) h low =
    omega (arith, uses-set_entry i q p es h (omega arith))

set_entry-IsEmptyFrom :
    (i q : ℕ) (es : Entries) → IsEmptyFrom i es → IsEmptyFrom (suc i) (set_entry i q es)
unfolding set_entry
set_entry-IsEmptyFrom i q [] h = tt
set_entry-IsEmptyFrom zero q (e ∷ es) (h, t) = t
set_entry-IsEmptyFrom (suc i) q (e ∷ es) h = set_entry-IsEmptyFrom i q es h

length-set_entry : (i q : ℕ) (es : Entries) → length (set_entry i q es) ≡ length es
unfolding set_entry
length-set_entry i q [] = refl
length-set_entry zero q (e ∷ es) = refl
length-set_entry (suc i) q (e ∷ es) = omega (arith, length-set_entry i q es)

-- What the loop leaves, from the entry `i` on, whether it ends well or not: each page that it enters
-- in the array is wired once for its entry, and what lies behind is still NULL.
pub record Read (n i : ℕ) (es : Entries) (s : Memory) (q : Status × ℕ × Entries × Memory)
    : Type 0 where
  pub wired : (p : ℕ) → q.3.wires p + uses p es ≡ s.wires p + uses p q.2
  pub empty : IsEmptyFrom q.1 q.2
  pub same_length : length q.2 ≡ length es
  pub ended : q.0 ≡ success → q.1 ≡ i + n

stops :
    (read : ℕ → Result ℕ) (n i : ℕ) (es : Entries) (s : Memory) (e : Errno)
    → read i ≡ err e
    → read_range read (suc n) i es s ≡ (err e, i, es, s)
unfolding read_range
stops read n i es s e f = rw (f, read_range)

pub goes_on :
    (read : ℕ → Result ℕ) (n i : ℕ) (es : Entries) (s : Memory) (q : ℕ)
    → read i ≡ ok q
    → read_range read (suc n) i es s ≡ read_range read n (i + 1) (set_entry i q es) (wire q s)
unfolding read_range
goes_on read n i es s q f = rw (f, read_range)

pub read_range-Read :
    (read : ℕ → Result ℕ) (n i : ℕ) (es : Entries) (s : Memory)
    → IsEmptyFrom i es
    → i + n ≤ length es
    → Read n i es s (read_range read n i es s)
unfolding read_range wire
read_range-Read read zero i es s h low = record {
  wired = λ p. refl;
  empty = h;
  same_length = refl;
  ended = λ e. omega arith;
}
read_range-Read read (suc n) i es s h low = elim (Result-cases (read i)) [
  | inr (e, f) ↦
      subst (Read (suc n) i es s) (sym (stops read n i es s e f))
        (record { wired = λ p. refl; empty = h; same_length = refl; ended = λ g. cc })
  | inl (q, f) ↦
      let rest =
        read_range-Read read n (i + 1) (set_entry i q es) (wire q s)
          (subst (λ m. IsEmptyFrom m (set_entry i q es)) (omega arith)
            (set_entry-IsEmptyFrom i q es h))
          (omega (arith, length-set_entry i q es, low)) in
      subst (Read (suc n) i es s) (sym (goes_on read n i es s q f)) (record {
        wired = λ p. ground (arith, rest.wired p, uses-set_entry i q p es h (omega (arith, low)));
        empty = rest.empty;
        same_length = rest.same_length ∙ length-set_entry i q es;
        ended = λ e. omega (arith, rest.ended e);
      })
]

-- The pages of the array from `heap_size` on are NULL, there is room for all of the buffer's, and every
-- page has the wirings that others have and one for each of its entries.
pub record IsPopulated (base : ℕ → ℕ) (bo : Heap) (s : Memory) : Type 0 where
  pub wired : (p : ℕ) → s.wires p ≡ base p + page_uses p bo.pages
  pub empty : (es : Entries) → bo.pages ≡ some es → IsEmptyFrom (npages bo.heap_size) es
  pub whole : (es : Entries) → bo.pages ≡ some es → length es ≡ npages bo.size

-- Of what a call leaves: the wirings always, the rest if it succeeds.
abbrev pub WiresPost : (ℕ → ℕ) → Status → Heap → Memory → Type 0
WiresPost base (ok u) bo s = IsPopulated base bo s
WiresPost base (err e) bo s = (p : ℕ) → s.wires p ≡ base p + page_uses p bo.pages
