-- ===== src/Shmem/Logic.antt =====
-- drm/drm_gem_shmem_logic.h: the arithmetic and the counters of the helper, without the kernel. A
-- function that updates `*use_count` returns the new count beside its result. `unsigned long` has 64
-- bits and `unsigned int` 32; PAGE_SHIFT is 12.
pub mod Laws
use lima_freebsd.Base.{
  ℕ, ◌+◌, ◌-◌, ◌*◌, ◌/◌, ◌%◌, ◌^◌, Option, none, some, Bool, true, false, not, ◌&&◌, ltb, leb, ◌==◌,
  if◌then◌else◌,
}
use lima_freebsd.Base.Int.{ℤ, is_negative, is_positive}

abbrev pub page_size : ℕ
page_size = 4096

abbrev pub ulong_mod : ℕ
ulong_mod = 2 ^ 64

abbrev pub uint_mod : ℕ
uint_mod = 2 ^ 32

pub data Unref : Type 0 where
  underflow release keep : Unref

-- `size >> PAGE_SHIFT`
abbrev pub npages : ℕ → ℕ
npages size = size / page_size

-- `(size + PAGE_SIZE - 1) & ~(PAGE_SIZE - 1)`: the mask clears the low 12 bits.
unfoldable pub align_size : ℕ → ℕ
align_size size = (size + page_size - 1) % ulong_mod / page_size * page_size

unfoldable pub ref_first : ℕ → Bool × ℕ
ref_first use_count = (use_count == 0, (use_count + 1) % uint_mod)

unfoldable pub unref : ℕ → Unref × ℕ
unref use_count =
    if use_count == 0
    then (underflow, use_count)
    else if ltb 0 (use_count - 1)
    then (keep, use_count - 1)
    else (release, use_count - 1)

-- `none` is the 0 that becomes SIGBUS; `some` carries `*out`.
unfoldable pub fault_index : ℕ → ℕ → ℕ → Option ℕ
fault_index address vm_start npages =
    if ltb address vm_start
    then none
    else if leb npages ((address - vm_start) / page_size)
    then none
    else some ((address - vm_start) / page_size)

unfoldable pub purgeable : ℤ → ℕ → Bool → Bool → Bool → Bool
purgeable madv vmap_use_count have_sgt exported imported =
    is_positive madv && vmap_use_count == 0 && have_sgt && not exported && not imported

-- The result, and `*madv` after the call.
unfoldable pub madvise_apply : ℤ → ℤ → Bool × ℤ
madvise_apply madv new_madv =
    let madv' = if is_negative madv then madv else new_madv in (not (is_negative madv'), madv')
