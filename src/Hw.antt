-- ===== src/Hw.antt =====
-- The register window of the GPU, as the driver sees it: each read is answered, and each write is kept.
pub mod Pp
pub mod Gp
pub mod Log
pub mod Mmu
pub mod L2
pub mod Pmu
mod Tests
use lima_freebsd.Base.{
  ℕ, zero, suc, ◌+◌, List, [], ◌∷◌, Bool, true, false, not, ◌==◌, bit_and, if◌then◌else◌, etimedout,
  Result, ok, err, Status, success,
}

-- `writel` of the last component at a register of an IP block, and `devm_request_irq` for the line of a
-- block, which enables it.
pub data Access : Type 0 where
  write : ℕ → ℕ → ℕ → Access
  request_irq : ℕ → Access

-- `answers ip reg n` is what the read number `n` returns if it reads the register `reg` of the block
-- `ip`; the writes stand latest first.
pub record Hw : Type 0 where
  pub answers : ℕ → ℕ → ℕ → ℕ
  pub reads : ℕ
  pub writes : List Access

unfoldable pub writel : ℕ → ℕ → ℕ → Hw → Hw
writel ip reg v h = record h { writes = write ip reg v ∷ h.writes }

-- The answer is any number, which may differ from one read of a register to the next.
unfoldable pub readl : ℕ → ℕ → Hw → ℕ × Hw
readl ip reg h = (h.answers ip reg h.reads, record h { reads = h.reads + 1 })

-- `v & mask`, as a condition.
abbrev pub has_bit : ℕ → ℕ → Bool
has_bit v mask = not (bit_and v mask == 0)

-- lima_poll_timeout and `readl_poll_timeout`: the rounds that the timeout leaves time for.
unfoldable pub poll_timeout : ℕ → (Hw → Bool × Hw) → Hw → Status × Hw
poll_timeout zero f h = (err etimedout, h)
poll_timeout (suc n) f h =
    let (r, h') = f h in elim r [ true ↦ (success, h') | false ↦ poll_timeout n f h' ]

-- `readl_poll_timeout` of one register, with the condition as a test.
unfoldable pub poll_reg : ℕ → ℕ → ℕ → (ℕ → Bool) → Hw → Status × Hw
unfolding poll_timeout
poll_reg n ip reg test h = poll_timeout n (λ h. let (v, h') = readl ip reg h in (test v, h')) h
