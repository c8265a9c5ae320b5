-- ===== src/Base/Bits.antt =====
-- `bit_or` of a multiple of 2 ^ w and a number below 2 ^ w is their sum: how the driver joins a
-- page-aligned bus address and the flag bits of a table entry. `bit_and` with a mask, of the power unit.
use Prim.Native.Nat.{
  ℕ, zero, suc, ◌+◌, ◌*◌, ◌/◌, ◌%◌, ◌≤◌, ◌<◌, max, min, bit_or, bit_and, digits, bitwise,
}
use Prim.Native.Nat.{bit_or-bitwise, bit_and-bitwise}
use mathlib.Core.Path.{◌≡◌, refl, ap}
use native.Mathlib.Omega.{arith}

module _ (rest : ℕ → ℕ) (op : ℕ → ℕ → ℕ) where
  -- Any number of rounds that is not below the first number will do.
  digits_enough : (a n m b : ℕ) → a ≤ n → a ≤ m → digits rest op n a b ≡ digits rest op m a b
  digits_enough zero zero zero b hn hm = refl
  digits_enough zero zero (suc m) b hn hm = refl
  digits_enough zero (suc n) zero b hn hm = refl
  digits_enough zero (suc n) (suc m) b hn hm = refl
  digits_enough (suc a) zero m b hn hm = absurd (omega arith)
  digits_enough (suc a) (suc n) zero b hn hm = absurd (omega arith)
  digits_enough (suc a) (suc n) (suc m) b hn hm =
      ap (λ x. x * 2 + op (suc a % 2) (b % 2))
        (digits_enough (suc a / 2) n m (b / 2) (omega arith) (omega arith))

  bitwise_halves :
      (a b : ℕ)
      → bitwise rest op (suc a) b ≡ bitwise rest op (suc a / 2) (b / 2) * 2 + op (suc a % 2) (b % 2)
  bitwise_halves a b =
      ap (λ x. x * 2 + op (suc a % 2) (b % 2))
        (digits_enough (suc a / 2) a (suc a / 2) (b / 2) (omega arith) (omega arith))

pub zero-bit_or : (b : ℕ) → bit_or 0 b ≡ b
zero-bit_or b = bit_or-bitwise 0 b

pub bit_or_step : (a b : ℕ) → bit_or a b ≡ bit_or (a / 2) (b / 2) * 2 + max (a % 2) (b % 2)
bit_or_step zero b = omega (arith, zero-bit_or b, zero-bit_or (b / 2))
bit_or_step (suc a) b = omega (
  arith,
  bit_or-bitwise (suc a) b,
  bitwise_halves (λ b. b) max a b,
  bit_or-bitwise (suc a / 2) (b / 2),
)

bit_or-zero_fuel : (n a : ℕ) → a ≤ n → bit_or a 0 ≡ a
bit_or-zero_fuel n zero h = refl
bit_or-zero_fuel zero (suc a) h = absurd (omega arith)
bit_or-zero_fuel (suc n) (suc a) h =
    omega (arith, bit_or_step (suc a) 0, bit_or-zero_fuel n (suc a / 2) (omega arith))

pub bit_or-zero : (a : ℕ) → bit_or a 0 ≡ a
bit_or-zero a = bit_or-zero_fuel a a (omega arith)

-- `scale w` is 2 ^ w by doubling, so that the induction on `w` needs no law of powers.
abbrev pub scale : ℕ → ℕ
scale zero = 1
scale (suc w) = scale w * 2

bit_or-even : (a b : ℕ) → bit_or (a * 2) b ≡ bit_or a (b / 2) * 2 + b % 2
bit_or-even a b = omega (arith, bit_or_step (a * 2) b, ap₁ (omega arith))
  where
    ap₁ : a * 2 / 2 ≡ a → bit_or (a * 2 / 2) (b / 2) ≡ bit_or a (b / 2)
    ap₁ e = rw e

pub bit_or-disjoint : (w k f : ℕ) → f < scale w → bit_or (k * scale w) f ≡ k * scale w + f
bit_or-disjoint zero k f h =
    let e : f ≡ 0 = omega arith in rw e (omega (arith, bit_or-zero (k * 1)))
bit_or-disjoint (suc w) k f h = omega (
  arith,
  ap (λ n. bit_or n f) regroup,
  bit_or-even (k * scale w) f,
  bit_or-disjoint w k (f / 2) (omega arith),
)
  where
    regroup : k * (scale w * 2) ≡ k * scale w * 2
    regroup = omega arith

-- The instances that the driver needs: page-aligned addresses, and byte-aligned tokens.
pub bit_or_page : (k f : ℕ) → f < 4096 → bit_or (k * 4096) f ≡ k * 4096 + f
bit_or_page k f h = bit_or-disjoint 12 k f h

pub bit_or_aligned : (a f : ℕ) → a % 4096 ≡ 0 → f < 4096 → bit_or a f ≡ a + f
bit_or_aligned a f e h =
    let q : a ≡ a / 4096 * 4096 = omega arith in rw q (bit_or_page (a / 4096) f h)

-- The same of `bit_and`, from its lowest digit.
bit_and_halves : (a b : ℕ) → bit_and a b ≡ bit_and (a / 2) (b / 2) * 2 + min (a % 2) (b % 2)
bit_and_halves zero b = omega (arith, bit_and-bitwise 0 b, bit_and-bitwise 0 (b / 2))
bit_and_halves (suc a) b = omega (
  arith,
  bit_and-bitwise (suc a / 2) (b / 2),
  bitwise_halves (λ b. 0) min a b,
  bit_and-bitwise (suc a) b,
)

bit_and_mask_fuel : (n a b : ℕ) → a ≤ n → bit_and (bit_and a b) b ≡ bit_and a b
bit_and_mask_fuel n zero b h = ap (λ x. bit_and x b) (bit_and-bitwise 0 b)
bit_and_mask_fuel zero (suc a) b h = absurd (omega arith)
bit_and_mask_fuel (suc n) (suc a) b h =
    let half : bit_and (suc a) b / 2 ≡ bit_and (suc a / 2) (b / 2) =
      omega (arith, bit_and_halves (suc a) b) in
    omega (
      arith,
      bit_and_halves (bit_and (suc a) b) b,
      bit_and_halves (suc a) b,
      ap (λ x. bit_and x (b / 2)) half,
      bit_and_mask_fuel n (suc a / 2) (b / 2) (omega arith),
    )

-- What a mask has let through, it lets through again.
pub bit_and_mask : (a b : ℕ) → bit_and (bit_and a b) b ≡ bit_and a b
bit_and_mask a b = bit_and_mask_fuel a a b (omega arith)
