-- ===== src/Platform.antt =====
-- linux/platform_logic.h: the pure part of the platform device shim. An `unsigned int` has 32 bits;
-- an `&` with a mask of the low bits is a remainder.
pub mod Laws
pub mod Irq
use lima_freebsd.Base.{
  ℕ, ◌+◌, ◌*◌, ◌/◌, ◌%◌, ◌^◌, List, [], ◌∷◌, Option, none, some, Bool, true, false, bit_or, ltb,
  ◌==◌, if◌then◌else◌, Run, done, fault,
}
use lima_freebsd.Base.Int.{ℤ, pos, negsuc}

-- `struct of_device_id`: the bytes of `compatible` before its NUL, and `data`, an address.
pub record DeviceId : Type 0 where
  pub compatible : List ℕ
  pub match_data : ℕ

-- `compatible[0] == '\0'`
abbrev pub is_terminator : DeviceId → Bool
is_terminator e = elim (e.compatible) [ [] ↦ true | c ∷ cs ↦ false ]

-- The loop; a table without a terminator is read past its end.
unfoldable pub scan : (List ℕ → Bool) → List DeviceId → Run (Option DeviceId)
scan is_compatible [] = fault
scan is_compatible (e ∷ tbl) =
    let rest = scan is_compatible tbl in
    if is_terminator e
    then done none
    else if is_compatible e.compatible
    then done (some e)
    else rest

-- `none` is a NULL pointer.
unfoldable pub of_match_scan :
    Option (List DeviceId) → Option (List ℕ → Bool) → Run (Option DeviceId)
of_match_scan none p = done none
of_match_scan (some tbl) none = done none
of_match_scan (some tbl) (some is_compatible) = scan is_compatible tbl

abbrev pub irq_tag : ℕ
irq_tag = 0x71d00000

-- LKPI_PLATFORM_IRQ_TOKEN
unfoldable pub irq_token : ℕ → ℕ → ℕ
irq_token unit idx = bit_or (bit_or irq_tag (unit % 0x1000 * 2 ^ 8)) (idx % 0x100)

-- LKPI_PLATFORM_IRQ_IS_TOKEN: the mask keeps bits 20 to 31.
unfoldable pub irq_is_token : ℕ → Bool
irq_is_token irq = irq % 2 ^ 32 / 2 ^ 20 * 2 ^ 20 == irq_tag

-- LKPI_PLATFORM_IRQ_INDEX, LKPI_PLATFORM_IRQ_UNIT
unfoldable pub irq_index : ℕ → ℕ
irq_index irq = irq % 2 ^ 32 % 0x100

unfoldable pub irq_unit : ℕ → ℕ
irq_unit irq = irq % 2 ^ 32 / 2 ^ 8 % 0x1000

unfoldable pub res_index_ok : ℤ → ℕ → Bool
res_index_ok (negsuc n) idx = false
res_index_ok (pos navail) idx = if navail == 0 then false else ltb idx navail
