-- ===== src/Hw/Log.antt =====
-- What a log of accesses says of a unit.
use lima_freebsd.Base.{
  ℕ, zero, suc, ◌≡◌, refl, arith, List, [], ◌∷◌, Option, none, some, Bool, ◌==◌, ◌&&◌,
  if◌then◌else◌,
}
use lima_freebsd.Hw.{Access, Hw, write, request_irq, readl, poll_timeout, poll_reg}

-- The value last written to a register.
unfoldable pub latest : ℕ → ℕ → List Access → Option ℕ
latest ip reg [] = none
latest ip reg (write i r v ∷ l) = if (i == ip) && (r == reg) then some v else latest ip reg l
latest ip reg (request_irq i ∷ l) = latest ip reg l

poll_timeout-writes :
    (n ip reg : ℕ) (test : ℕ → Bool) (h : Hw)
    → (poll_timeout n (λ h. let (v, h') = readl ip reg h in (test v, h')) h).1.writes ≡ h.writes
unfolding poll_timeout readl
poll_timeout-writes zero ip reg test h = refl
poll_timeout-writes (suc n) ip reg test h =
    ground (arith, poll_timeout-writes n ip reg test (readl ip reg h).1)

-- A poll of a register only reads.
pub poll_reg-writes :
    (n ip reg : ℕ) (test : ℕ → Bool) (h : Hw) → (poll_reg n ip reg test h).1.writes ≡ h.writes
unfolding poll_reg
poll_reg-writes n ip reg test h = poll_timeout-writes n ip reg test h
