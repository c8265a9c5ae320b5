-- ===== src/Drv.antt =====
-- lima_drv.c: what the ioctls check before they call the other parts, what a submission takes and
-- gives back on every path, and the block reader.
pub mod Reader
pub mod Submit
mod Tests
use lima_freebsd.Base.{
  ℕ, ◌+◌, Bool, true, false, not, ◌==◌, ◌||◌, ltb, bit_and, if◌then◌else◌, einval, Result, ok, err,
  Status, success,
}
use lima_freebsd.Device.Ips.{GpuId, mali400, mali450}

-- `LIMA_BO_FLAG_HEAP`, `LIMA_GEM_WAIT_READ | LIMA_GEM_WAIT_WRITE`.
abbrev pub bo_flag_heap : ℕ
bo_flag_heap = 1

abbrev pub wait_flags : ℕ
wait_flags = 3

-- `flags & ~(known)`, where `known` is the low bits.
abbrev pub has_other : ℕ → ℕ → Bool
has_other flags known = not (flags == bit_and flags known)

-- What lima_ioctl_get_param reads of the device.
pub record Info : Type 0 where
  pub id : GpuId
  pub num_processor : ℕ
  pub gp_version : ℕ
  pub pp_version : ℕ

abbrev gpu_id : GpuId → ℕ
gpu_id mali400 = 1
gpu_id mali450 = 2

-- lima_ioctl_get_param: the value of the parameter.
unfoldable pub get_param : Info → ℕ → ℕ → Result ℕ
get_param dev pad param =
    if not (pad == 0)
    then err einval
    else if param == 0
    then ok (gpu_id dev.id)
    else if param == 1
    then ok dev.num_processor
    else if param == 2
    then ok dev.gp_version
    else if param == 3
    then ok dev.pp_version
    else err einval

-- lima_ioctl_gem_create, up to the answer of lima_gem_create_handle.
unfoldable pub gem_create : ℕ → ℕ → ℕ → Result ℕ → Result ℕ
gem_create pad flags size handle =
    if not (pad == 0)
    then err einval
    else if has_other flags bo_flag_heap
    then err einval
    else if size == 0
    then err einval
    else handle

-- lima_ioctl_gem_wait, up to the answer of lima_gem_wait.
unfoldable pub gem_wait : ℕ → Status → Status
gem_wait op wait = if has_other op wait_flags then err einval else wait

-- lima_ioctl_ctx_create and lima_ioctl_ctx_free, up to the answer of lima_ctx_create or lima_ctx_free.
unfoldable pub with_pad {ℓ} : {A : Type ℓ} → ℕ → Result A → Result A
with_pad pad answer = if not (pad == 0) then err einval else answer
