-- ===== src/Device/Power/Laws.antt =====
-- Every path of lima_clk_enable and of the regulator's enable, against the disable that undoes it.
use lima_freebsd.Base.{◌+◌, ◌≡◌, arith, Errno, err, success}
use lima_freebsd.Device.Power.{
  Power, Answers, clk_stage, stage_full, clk_enable, clk_disable, clk_init, regulator_init,
  regulator_disable, regulator_enable,
}

-- The clocks and the reset line are on as often, less the times off, in both states.
pub record SameClocks (p q : Power) : Type 0 where
  pub bus : p.bus_on + q.bus_off ≡ q.bus_on + p.bus_off
  pub core : p.core_on + q.core_off ≡ q.core_on + p.core_off
  pub line : p.deasserted + q.asserted ≡ q.deasserted + p.asserted

pub record SameRegulator (p q : Power) : Type 0 where
  pub level : p.regulator_on + q.regulator_off ≡ q.regulator_on + p.regulator_off

-- The clocks, the reset line and the regulator are on as often, less the times off, in both states.
pub record SamePower (p q : Power) : Type 0 where
  pub clocks : SameClocks p q
  pub regulator : SameRegulator p q

pub clk_enable_err :
    (a : Answers) (p : Power) (e : Errno)
    → (clk_enable a p).0 ≡ err e
    → SamePower p (clk_enable a p).1
unfolding clk_enable
clk_enable_err a p e h = ground arith

pub clk_disable-clk_enable :
    (a : Answers) (p : Power)
    → clk_stage a.stage ≡ stage_full
    → (clk_enable a p).0 ≡ success
    → SamePower p (clk_disable (clk_enable a p).1)
unfolding clk_enable clk_disable
clk_disable-clk_enable a p f h = ground arith

pub clk_init_err :
    (a : Answers) (p : Power) (e : Errno) → (clk_init a p).0 ≡ err e → SamePower p (clk_init a p).1
unfolding clk_init clk_enable
clk_init_err a p e h = ground arith

pub clk_disable-clk_init :
    (a : Answers) (p : Power)
    → clk_stage a.stage ≡ stage_full
    → (clk_init a p).0 ≡ success
    → SamePower p (clk_disable (clk_init a p).1)
unfolding clk_init clk_enable clk_disable
clk_disable-clk_init a p f h = ground arith

module _ (p0 : Power) (a : Answers) (p : Power) where
  pub regulator_init_err :
      (e : Errno)
      → (regulator_init a p).0 ≡ err e
      → SamePower p0 (clk_disable p)
      → SamePower p0 (clk_disable (regulator_init a p).1)
  unfolding regulator_init clk_disable
  regulator_init_err e h s = ground arith

  pub regulator_disable-regulator_init :
      (regulator_init a p).0 ≡ success
      → SamePower p0 (clk_disable p)
      → SamePower p0 (clk_disable (regulator_disable (regulator_init a p).1))
  unfolding regulator_init regulator_disable clk_disable
  regulator_disable-regulator_init h s = ground arith

  pub regulator_disable-regulator_enable :
      (regulator_enable a p).0 ≡ success
      → SamePower p0 (clk_disable p)
      → SamePower p0 (clk_disable (regulator_disable (regulator_enable a p).1))
  unfolding regulator_enable regulator_disable clk_disable
  regulator_disable-regulator_enable h s = ground arith

  pub regulator_enable_err :
      (e : Errno)
      → (regulator_enable a p).0 ≡ err e
      → SamePower p0 (clk_disable p)
      → SamePower p0 (clk_disable (regulator_enable a p).1)
  unfolding regulator_enable clk_disable
  regulator_enable_err e h s = ground arith
