-- ===== src/Platform/Laws.antt =====
-- What the platform logic guarantees.
use lima_freebsd.Base.{
  ℕ, All, ◌+◌, ◌*◌, ◌%◌, ◌^◌, ◌<◌, ◌≡◌, ◌↔◌, inl, inr, ◌∙◌, List, [], ◌∷◌, ◌++◌, Option, none, some,
  Bool, true, false, bit_or, arith, Bool-cases, done,
}
use lima_freebsd.Base.Bits.{bit_or-disjoint}
use lima_freebsd.Base.Int.{ℤ, pos}
use lima_freebsd.Platform.{
  DeviceId, is_terminator, scan, of_match_scan, irq_tag, irq_token, irq_is_token, irq_index,
  irq_unit, res_index_ok,
}

-- The fields of a token do not overlap.
irq_token_sum :
    (unit idx : ℕ) → unit < 0x1000 → idx < 0x100 → irq_token unit idx ≡ irq_tag + unit * 2 ^ 8 + idx
unfolding irq_token
irq_token_sum unit idx hu hi =
    let u : unit % 0x1000 * 2 ^ 8 ≡ unit * 2 ^ 8 = omega arith in
    let i : idx % 0x100 ≡ idx = omega arith in
    let head : bit_or irq_tag (unit * 2 ^ 8) ≡ irq_tag + unit * 2 ^ 8 =
      bit_or-disjoint 20 0x71d (unit * 2 ^ 8) (omega arith) in
    let split : irq_tag + unit * 2 ^ 8 ≡ (0x71d000 + unit) * 2 ^ 8 = omega arith in
    rw (u, i, head, split) (bit_or-disjoint 8 (0x71d000 + unit) idx hi)

-- A token of a unit below 4096 and an index below 256 is recognised as one, gives both back, and is a
-- positive `int`.
pub irq_token-fields :
    (unit idx : ℕ)
    → unit < 0x1000
    → idx < 0x100
    → (irq_is_token (irq_token unit idx) ≡ true)
      × (irq_unit (irq_token unit idx) ≡ unit)
      × (irq_index (irq_token unit idx) ≡ idx)
      × (0 < irq_token unit idx)
      × (irq_token unit idx < 2 ^ 31)
unfolding irq_is_token irq_unit irq_index
irq_token-fields unit idx hu hi = rw (irq_token_sum unit idx hu hi) (ground arith)

-- Every 32-bit number that is recognised as a token is the token of the unit and the index read from it.
pub irq_token-of_fields :
    (irq : ℕ)
    → irq < 2 ^ 32
    → irq_is_token irq ≡ true
    → irq_token (irq_unit irq) (irq_index irq) ≡ irq
unfolding irq_is_token irq_unit irq_index
irq_token-of_fields irq small h =
    irq_token_sum (irq_unit irq) (irq_index irq) (omega arith) (omega arith) ∙ ground arith

-- An index is servable exactly if it is below the number of resources, of which there may be none, or
-- an error in its place.
pub res_index_ok_iff :
    (navail : ℤ) (idx : ℕ)
    → (res_index_ok navail idx ≡ true) ↔ ((n : ℕ) × (navail ≡ pos n) × (idx < n))
unfolding res_index_ok
res_index_ok_iff navail idx = ground arith

-- The first entry that the predicate accepts.
pub data IsFirst (p : List ℕ → Bool) : List DeviceId → Option DeviceId → Type 0 where
  none_left : IsFirst p [] none
  found : {e : DeviceId} {es : List DeviceId} → p e.compatible ≡ true → IsFirst p (e ∷ es) (some e)
  passed :
      {e : DeviceId} {es : List DeviceId} {r : Option DeviceId}
      → p e.compatible ≡ false
      → IsFirst p es r
      → IsFirst p (e ∷ es) r

scan-IsFirst :
    (p : List ℕ → Bool) (es : List DeviceId) (last : DeviceId) (rest : List DeviceId)
    → All (λ e. is_terminator e ≡ false) es
    → is_terminator last ≡ true
    → (r : Option DeviceId) × (scan p (es ++ last ∷ rest) ≡ done r) × IsFirst p es r
unfolding scan
scan-IsFirst p [] last rest h t = (none, ground (arith, t), IsFirst.none_left)
scan-IsFirst p (e ∷ es) last rest (n, h) t = elim (Bool-cases (p e.compatible)) [
  | inl y ↦ (some e, ground (arith, n, y), IsFirst.found y)
  | inr y ↦
      let (r, run, first) = scan-IsFirst p es last rest h t in
      (r, ground (arith, n, y, run), IsFirst.passed y first)
]

-- A match table that has a terminator is read no further, and the answer is the first entry before it
-- that the predicate accepts, NULL if there is none.
pub of_match_scan-IsFirst :
    (p : List ℕ → Bool) (es : List DeviceId) (last : DeviceId) (rest : List DeviceId)
    → All (λ e. is_terminator e ≡ false) es
    → is_terminator last ≡ true
    → (r : Option DeviceId) × (of_match_scan (some (es ++ last ∷ rest)) (some p) ≡ done r)
      × IsFirst p es r
unfolding of_match_scan
of_match_scan-IsFirst p es last rest h t = scan-IsFirst p es last rest h t
