-- ===== src/Hw/L2.antt =====
-- lima_l2_cache.c.
pub mod Laws
use lima_freebsd.Base.{
  ℕ, zero, suc, ◌+◌, Bool, true, false, not, ◌==◌, ◌&&◌, if◌then◌else◌, Errno, enodev, Result, ok,
  err, Status, success,
}
use lima_freebsd.Hw.{Hw, writel, readl, has_bit, poll_reg}

abbrev size : ℕ
size = 0x04

abbrev pub l2_status : ℕ
l2_status = 0x08

abbrev command_busy : ℕ
command_busy = 1

abbrev pub command : ℕ
command = 0x10

abbrev pub clear_all : ℕ
clear_all = 1

abbrev pub max_reads : ℕ
max_reads = 0x18

abbrev pub enable : ℕ
enable = 0x1c

-- `LIMA_L2_CACHE_ENABLE_ACCESS | LIMA_L2_CACHE_ENABLE_READ_ALLOCATE`.
abbrev pub enable_all : ℕ
enable_all = 3

-- The registers and `l2_flush_timeouts`.
pub record L2 : Type 0 where
  pub hw : Hw
  pub timeouts : ℕ

-- lima_l2_cache_flush; `n` is the rounds of the poll.
unfoldable pub flush : ℕ → ℕ → L2 → Status × L2
flush n ip s =
    let (r, h) =
      poll_reg n ip l2_status (λ v. not (has_bit v command_busy))
        (writel ip command clear_all s.hw) in
    elim r [
      | err e ↦ (err e, record s { hw = h; timeouts = s.timeouts + 1 })
      | ok u ↦ (success, record s { hw = h })
    ]

-- `l2_cache2` is the number of that block; `present` of the four blocks from lima_ip_pp4 on is given.
abbrev pub l2_cache2 : ℕ
l2_cache2 = 21

abbrev pub pp4 : ℕ
pp4 = 15

-- `break` at the first that is present, of the `n` blocks from number `i` on.
unfoldable pub any_present : ℕ → ℕ → (ℕ → Bool) → Bool
any_present zero i present = false
any_present (suc n) i present = if present i then true else any_present n (i + 1) present

-- lima_l2_cache_init; The size is printed.
unfoldable pub init : ℕ → (ℕ → Bool) → ℕ → L2 → Status × L2
unfolding any_present
init n present ip s =
    if (ip == l2_cache2) && not (any_present 4 pp4 present)
    then (err enodev, s)
    else (let s1 = (flush n ip (record s { hw = (readl ip size s.hw).1 })).1 in
        (success, record s1 { hw = writel ip max_reads 0x1c (writel ip enable enable_all s1.hw) }))
