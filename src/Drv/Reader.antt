-- ===== src/Drv/Reader.antt =====
-- lima_read_block: a slice of blocks that follow one another, copied block by block.
use mathlib.Core.List.{append_assoc}
use lima_freebsd.Base.{
  ℕ, zero, suc, ◌+◌, ◌-◌, ◌%◌, ◌^◌, ◌<◌, ◌≤◌, ◌≡◌, ◌⊎◌, refl, arith, ap, ◌∙◌, sym, List, [], ◌∷◌,
  ◌++◌, Bool, true, not, ◌==◌, ltb, leb, length, drop, min, if◌then◌else◌, Bool-cases, inl, inr,
  leb→le, leb_false→lt, ltb→lt, ltb-false→le,
}

abbrev pub u64_mod : ℕ
u64_mod = 2 ^ 64

abbrev pub take {ℓ} : {A : Type ℓ} → ℕ → List A → List A
take zero xs = []
take (suc n) [] = []
take (suc n) (x ∷ xs) = x ∷ take n xs

-- `struct lima_block_reader`; `dst` is the bytes written so far.
pub record Reader : Type 0 where
  pub dst : List ℕ
  pub base : ℕ
  pub count : ℕ
  pub off : ℕ
  pub read : ℕ

unfoldable pub read_block : Reader → List ℕ → Bool × Reader
read_block r src =
    let max_off = (r.base + length src) % u64_mod in
    let size = min (max_off - r.off) r.count in
    let r' =
      if ltb r.off max_off
      then record r {
        dst = r.dst ++ take size (drop (r.off - r.base) src);
        off = r.off + size;
        read = r.read + size;
        count = r.count - size;
      }
      else r in
    (not (r'.count == 0), record r' { base = max_off })

-- What is in the destination once the bytes `rest`, which start at `base`, are read too.
abbrev pub slice : Reader → List ℕ → List ℕ
slice r rest = r.dst ++ take r.count (drop (r.off - r.base) rest)

module _ {ℓ} {A : Type ℓ} where
  take-nil : (n : ℕ) → take {A = A} n [] ≡ []
  take-nil zero = refl
  take-nil (suc n) = refl

  drop-nil : (n : ℕ) → drop {A = A} n [] ≡ []
  drop-nil zero = refl
  drop-nil (suc n) = refl

  take-append : (n : ℕ) (xs ys : List A) → take n (xs ++ ys) ≡ take n xs ++ take (n - length xs) ys
  take-append n [] ys = let e : n - 0 ≡ n = omega arith in rw e (rw (take-nil n) refl)
  take-append zero (x ∷ xs) ys = let e : 0 - suc (length xs) ≡ 0 = omega arith in rw e refl
  take-append (suc n) (x ∷ xs) ys =
      let e : suc n - suc (length xs) ≡ n - length xs = omega arith in
      rw e (ap (λ (zs : List A). x ∷ zs) (take-append n xs ys))

  drop-append : (k : ℕ) (xs ys : List A) → drop k (xs ++ ys) ≡ drop k xs ++ drop (k - length xs) ys
  drop-append k [] ys = let e : k - 0 ≡ k = omega arith in rw e (rw (drop-nil k) refl)
  drop-append zero (x ∷ xs) ys = let e : 0 - suc (length xs) ≡ 0 = omega arith in rw e refl
  drop-append (suc k) (x ∷ xs) ys =
      let e : suc k - suc (length xs) ≡ k - length xs = omega arith in rw e (drop-append k xs ys)

  take-min : (n m : ℕ) (xs : List A) → length xs ≤ m → take (min m n) xs ≡ take n xs
  take-min n m [] h = rw (take-nil (min m n), take-nil n)
  take-min zero m (x ∷ xs) h = let e : min m 0 ≡ 0 = omega arith in rw e refl
  take-min (suc n) zero (x ∷ xs) h = absurd (omega arith)
  take-min (suc n) (suc m) (x ∷ xs) h =
      let e : min (suc m) (suc n) ≡ suc (min m n) = omega arith in
      rw e (ap (λ (zs : List A). x ∷ zs) (take-min n m xs (omega arith)))

  length-drop : (k : ℕ) (xs : List A) → length (drop k xs) ≡ length xs - k
  length-drop zero xs = omega arith
  length-drop (suc k) [] = omega arith
  length-drop (suc k) (x ∷ xs) = omega (arith, length-drop k xs)

  drop_all : (k : ℕ) (xs : List A) → length xs ≤ k → drop k xs ≡ []
  drop_all k [] h = drop-nil k
  drop_all zero (x ∷ xs) h = absurd (omega arith)
  drop_all (suc k) (x ∷ xs) h = drop_all k xs (omega arith)

take-drop-append :
    (n k : ℕ) (xs ys : List ℕ)
    → take n (drop k (xs ++ ys))
      ≡ take n (drop k xs) ++ take (n - (length xs - k)) (drop (k - length xs) ys)
take-drop-append n k xs ys =
    ap (take n) (drop-append k xs ys)
    ∙ (take-append n (drop k xs) (drop (k - length xs) ys)
        ∙ ap (λ (m : ℕ). take n (drop k xs) ++ take (n - m) (drop (k - length xs) ys))
            (length-drop k xs))

-- The bytes of the block that are copied, and then those of the rest: `gap` is how far the reader is
-- from the end of the block.
copied :
    (n k gap : ℕ) (src rest : List ℕ)
    → k + gap ≡ length src
    → take (min gap n) (drop k src) ++ take (n - min gap n) (drop (k + min gap n - length src) rest)
      ≡ take n (drop k (src ++ rest))
copied n k gap src rest e =
    ap (λ (xs : List ℕ). xs ++ take (n - min gap n) (drop (k + min gap n - length src) rest)) first
    ∙ (ap (λ (xs : List ℕ). take n (drop k src) ++ xs)
          (elim (Bool-cases (leb gap n)) [
            | inl h ↦ whole (omega (arith, leb→le gap n h))
            | inr h ↦ part (omega (arith, leb_false→lt gap n h))
          ])
        ∙ sym (take-drop-append n k src rest))
  where
    first : take (min gap n) (drop k src) ≡ take n (drop k src)
    first = take-min n gap (drop k src) (omega (arith, length-drop k src))

    whole :
        gap ≤ n
        → take (n - min gap n) (drop (k + min gap n - length src) rest)
          ≡ take (n - (length src - k)) (drop (k - length src) rest)
    whole h =
        let p : n - min gap n ≡ n - (length src - k) = omega arith in
        let q : k + min gap n - length src ≡ k - length src = omega arith in rw (p, q)

    part :
        n < gap
        → take (n - min gap n) (drop (k + min gap n - length src) rest)
          ≡ take (n - (length src - k)) (drop (k - length src) rest)
    part h =
        let p : n - min gap n ≡ 0 = omega arith in
        let q : n - (length src - k) ≡ 0 = omega arith in rw (p, q)

-- Nothing of the block is copied.
skipped :
    (n k : ℕ) (src rest : List ℕ)
    → length src ≤ k
    → take n (drop (k - length src) rest) ≡ take n (drop k (src ++ rest))
skipped n k src rest h = sym (
    ap (take n) (
      drop-append k src rest
      ∙ ap (λ (xs : List ℕ). xs ++ drop (k - length src) rest) (drop_all k src h)))

none_left :
    (n gap : ℕ) (xs ys zs : List ℕ)
    → n ≡ 0
    → take (min gap n) xs ++ take (n - min gap n) ys ≡ take n zs
none_left n gap xs ys zs z =
    let p : min gap n ≡ 0 = omega arith in let q : n - 0 ≡ 0 = omega arith in rw (p, q, z)

-- Where a reader stands within the bytes, or has nothing left to read.
pub record InOrder (r : Reader) : Type 0 where
  pub ahead : (r.base ≤ r.off) ⊎ (r.count ≡ 0)

-- Reading one block and then the bytes after it is reading the block and the bytes as one, wherever the
-- block's borders lie: what ends up in the destination is the slice of `count` bytes from `off` on. The
-- answer is whether bytes are left to read, `read` grows by what was copied, and the reader
-- stands in order for the next block.
pub slice-read_block :
    (r : Reader) (src rest : List ℕ)
    → InOrder r
    → r.base + length src < u64_mod
    → let (more, r') = read_block r src in
      (slice r' rest ≡ slice r (src ++ rest))
      × (more ≡ not (r'.count == 0))
      × (r'.read + r'.count ≡ r.read + r.count)
      × InOrder r'
unfolding read_block
slice-read_block r src rest o fits = elim (Bool-cases (ltb r.off (r.base + length src))) [
  | inl h ↦ rw cut (
      rw h (
        append_assoc r.dst _ _ ∙ ap (λ (xs : List ℕ). r.dst ++ xs) (inside h),
        refl,
        omega arith,
        record {
          ahead = elim (Bool-cases (leb (r.base + length src - r.off) r.count)) [
            | inl l ↦ inl (omega (arith, leb→le _ _ l, ltb→lt _ _ h))
            | inr l ↦ inr (omega (arith, leb_false→lt _ _ l))
          ];
        },
      ))
  | inr h ↦
      let past : r.base + length src ≤ r.off = omega (arith, ltb-false→le _ _ h) in
      let q : r.off - (r.base + length src) ≡ r.off - r.base - length src = omega arith in
      rw cut (
        rw h (
          ap (λ (xs : List ℕ). r.dst ++ xs)
              (ap (λ (k : ℕ). take r.count (drop k rest)) q
                ∙ skipped r.count (r.off - r.base) src rest (omega arith)),
          refl,
          refl,
          record { ahead = inl past },
        ))
]
  where
    cut : (r.base + length src) % u64_mod ≡ r.base + length src
    cut = omega (arith, fits)

    gap : ℕ
    gap = r.base + length src - r.off

    inside :
        ltb r.off (r.base + length src) ≡ true
        → take (min gap r.count) (drop (r.off - r.base) src)
            ++ take
                (r.count - min gap r.count)
                (drop (r.off + min gap r.count - (r.base + length src)) rest)
          ≡ take r.count (drop (r.off - r.base) (src ++ rest))
    inside h = elim o.ahead [
      | inr z ↦ none_left r.count gap _ _ _ z
      | inl le ↦
          let low = ltb→lt _ _ h in
          let q : r.off + min gap r.count - (r.base + length src)
              ≡ r.off - r.base + min gap r.count - length src =
            omega arith in
          ap
            (λ (k : ℕ).
              take (min gap r.count) (drop (r.off - r.base) src)
              ++ take (r.count - min gap r.count) (drop k rest))
            q
          ∙ copied r.count (r.off - r.base) gap src rest (omega arith)
    ]
