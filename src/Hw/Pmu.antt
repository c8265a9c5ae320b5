-- ===== src/Hw/Pmu.antt =====
-- lima_pmu.c: the power domains inside the GPU.
pub mod Laws
use lima_freebsd.Base.{
  ℕ, zero, suc, ◌+◌, ◌-◌, ◌*◌, ◌%◌, ◌^◌, Bool, true, false, not, ◌==◌, bit_and, bit_or, etimedout,
  if◌then◌else◌, Result, ok, err, Status, success,
}
use lima_freebsd.Base.Int.{u32_mod}
use lima_freebsd.Device.Ips.{GpuId, mali400, mali450}
use lima_freebsd.Hw.{Hw, writel, readl, has_bit}
use lima_freebsd.Hw.L2.{any_present}

abbrev pub power_up : ℕ
power_up = 0x00

abbrev pub power_down : ℕ
power_down = 0x04

abbrev pub gp0_mask : ℕ
gp0_mask = 1

abbrev pub l2_mask : ℕ
l2_mask = 2

-- `LIMA_PMU_POWER_PP_MASK(i)`.
abbrev pub pp_mask : ℕ → ℕ
pp_mask i = 2 ^ (2 + i)

abbrev pub pp0_mask : ℕ
pp0_mask = 2

abbrev pub pp13_mask : ℕ
pp13_mask = 4

abbrev pub pp47_mask : ℕ
pp47_mask = 8

abbrev pub pmu_status : ℕ
pmu_status = 0x08

abbrev pub int_mask : ℕ
int_mask = 0x0c

abbrev pub int_rawstat : ℕ
int_rawstat = 0x10

abbrev pub int_clear : ℕ
int_clear = 0x18

abbrev pub int_cmd_mask : ℕ
int_cmd_mask = 1

abbrev pub sw_delay : ℕ
sw_delay = 0x1c

abbrev pub cmd_polls : ℕ
cmd_polls = 100

-- The number of lima_ip_pp0.
abbrev pub pp0 : ℕ
pp0 = 11

-- lima_pmu_wait_cmd, with the rounds left.
unfoldable pub wait_cmd : ℕ → ℕ → Hw → Status × Hw
wait_cmd zero ip h = (err etimedout, h)
wait_cmd (suc n) ip h =
    let (v, h') = readl ip int_rawstat h in
    let rest = wait_cmd n ip h' in
    if has_bit v int_cmd_mask then (success, writel ip int_clear int_cmd_mask h') else rest

unfoldable pub send_cmd : ℕ → ℕ → ℕ → Hw → Status × Hw
send_cmd ip reg mask h = wait_cmd cmd_polls ip (writel ip reg mask h)

-- `n` processors of a Mali-400 from number `i` on.
unfoldable pub pp_masks : ℕ → ℕ → (ℕ → Bool) → ℕ → ℕ
pp_masks zero i present ret = ret
pp_masks (suc n) i present ret =
    pp_masks n (i + 1) present (if present (pp0 + i) then bit_or ret (pp_mask i) else ret)

-- `ret |= mask` where the loop met a processor that is present.
abbrev or_if : Bool → ℕ → ℕ → ℕ
or_if true mask ret = bit_or ret mask
or_if false mask ret = ret

unfoldable pub get_ip_mask : GpuId → (ℕ → Bool) → ℕ
unfolding pp_masks any_present
get_ip_mask mali400 present = pp_masks 4 0 present (bit_or gp0_mask l2_mask)
get_ip_mask mali450 present =
    or_if (any_present 4 (pp0 + 4) present) pp47_mask
      (or_if (any_present 3 (pp0 + 1) present) pp13_mask (or_if (present pp0) pp0_mask gp0_mask))

-- The rest of lima_pmu_init, where the status is not 0.
unfoldable pub power_on : ℕ → ℕ → Hw → Status × Hw
power_on ip stat h =
    let (r, h') = send_cmd ip power_up stat h in
    elim r [ err e ↦ (err e, h') | ok u ↦ (success, (readl ip pmu_status h').1) ]

unfoldable pub init : ℕ → Hw → Status × Hw
unfolding power_on
init ip h =
    let (stat, h1) = readl ip pmu_status (writel ip sw_delay 0xffff (writel ip int_mask 0 h)) in
    if stat == 0 then (success, h1) else power_on ip stat h1

-- `ip->data.mask` and the registers; the domains that are on and in the mask are powered down.
unfoldable pub fini : GpuId → (ℕ → Bool) → ℕ → ℕ → Hw → ℕ × Hw
unfolding get_ip_mask
fini g present ip mask0 h =
    let mask = if mask0 == 0 then get_ip_mask g present else mask0 in
    let (v, h1) = readl ip pmu_status h in
    let stat = bit_and (u32_mod - 1 - v % u32_mod) mask in
    if stat == 0
    then (mask, h1)
    else (let h2 = writel ip power_down stat h1 in
        (
          mask,
          elim g [
            | mali400 ↦ writel ip int_clear int_cmd_mask h2
            | mali450 ↦ (wait_cmd cmd_polls ip h2).1
          ],
        ))
