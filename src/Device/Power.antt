-- ===== src/Device/Power.antt =====
-- lima_device.c: the clocks, the reset line and the regulator of the GPU. Each resource has the number
-- of times it was switched on and the number of times it was switched off.
pub mod Laws
use lima_freebsd.Base.{
  ℕ, ◌+◌, Bool, true, false, ltb, if◌then◌else◌, Option, none, some, Errno, enodev, Result, ok, err,
  Status, success,
}
use lima_freebsd.Base.Int.{ℤ, pos, negsuc}

abbrev pub stage_bus : ℕ
stage_bus = 1

abbrev pub stage_core : ℕ
stage_core = 2

abbrev pub stage_full : ℕ
stage_full = 3

-- lima_clk_stage; the argument is `hw.lima.clk_stage`, or the default.
unfoldable pub clk_stage : ℤ → ℕ
clk_stage (pos n) = if ltb stage_full n then stage_full else n
clk_stage (negsuc n) = stage_full

-- `reset` and `regulator` are whether the pointers of `struct lima_device` are set.
pub record Power : Type 0 where
  pub bus_on : ℕ
  pub bus_off : ℕ
  pub core_on : ℕ
  pub core_off : ℕ
  pub deasserted : ℕ
  pub asserted : ℕ
  pub regulator_on : ℕ
  pub regulator_off : ℕ
  pub reset : Bool
  pub regulator : Bool

-- What the clock, reset and regulator frameworks answer.
pub record Answers : Type 0 where
  pub stage : ℤ
  pub get_bus : Status
  pub get_core : Status
  pub get_reset : Result Bool
  pub enable_bus : Status
  pub force_pll : Status
  pub enable_core : Status
  pub deassert : Status
  pub get_regulator : Status
  pub enable_regulator : Status

-- `error_out0` and `error_out1` of lima_clk_enable.
abbrev pub clk_out0 : Power → Power
clk_out0 p = record p { bus_off = p.bus_off + 1 }

abbrev pub clk_out1 : Power → Power
clk_out1 p = clk_out0 (record p { core_off = p.core_off + 1 })

-- From the core clock on.
unfoldable pub clk_enable_reset : Answers → Power → Status × Power
unfolding clk_stage
clk_enable_reset a p =
    if ltb (clk_stage a.stage) stage_full
    then (success, p)
    else if p.reset
    then (elim a.deassert [
      | err e ↦ (err e, clk_out1 p)
      | ok u ↦ (success, record p { deasserted = p.deasserted + 1 })
    ])
    else (success, p)

-- From the bus clock on.
unfoldable pub clk_enable_core : Answers → Power → Status × Power
unfolding clk_stage clk_enable_reset
clk_enable_core a p =
    if ltb (clk_stage a.stage) stage_core then (success, p) else (elim a.force_pll [
      | err e ↦ (err e, clk_out0 p)
      | ok u ↦ elim a.enable_core [
        | err e ↦ (err e, clk_out0 p)
        | ok v ↦ clk_enable_reset a (record p { core_on = p.core_on + 1 })
      ]
    ])

unfoldable pub clk_enable : Answers → Power → Status × Power
unfolding clk_stage clk_enable_core
clk_enable a p = if ltb (clk_stage a.stage) stage_bus then (success, p) else (elim a.enable_bus [
  | err e ↦ (err e, p)
  | ok u ↦ clk_enable_core a (record p { bus_on = p.bus_on + 1 })
])

unfoldable pub clk_disable : Power → Power
clk_disable p = record p {
  asserted = if p.reset then p.asserted + 1 else p.asserted;
  core_off = p.core_off + 1;
  bus_off = p.bus_off + 1;
}

unfoldable pub clk_init : Answers → Power → Status × Power
unfolding clk_enable
clk_init a p = elim a.get_bus [
  | err e ↦ (err e, p)
  | ok u ↦ elim a.get_core [
    | err e ↦ (err e, p)
    | ok v ↦ elim a.get_reset [
      | err e ↦ (err e, record p { reset = false })
      | ok present ↦ clk_enable a (record p { reset = present })
    ]
  ]
]

unfoldable pub regulator_enable : Answers → Power → Status × Power
regulator_enable a p =
    if p.regulator
    then (elim a.enable_regulator [
      | err e ↦ (err e, p)
      | ok u ↦ (success, record p { regulator_on = p.regulator_on + 1 })
    ])
    else (success, p)

unfoldable pub regulator_disable : Power → Power
regulator_disable p = if p.regulator then record p { regulator_off = p.regulator_off + 1 } else p

-- A board without a regulator answers `enodev`.
abbrev pub missing_regulator : Errno → Status
missing_regulator enodev = success
missing_regulator e = err e

unfoldable pub regulator_init : Answers → Power → Status × Power
unfolding regulator_enable
regulator_init a p = elim a.get_regulator [
  | err e ↦ (missing_regulator e, record p { regulator = false })
  | ok u ↦ regulator_enable a (record p { regulator = true })
]
