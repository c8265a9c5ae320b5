-- ===== src/Device/Pipes.antt =====
-- lima_device.c: the blocks that the pixel pipe takes (lima_init_pp_pipe), and what bring-up and
-- teardown of a pipe take and give back.
pub mod Bounds
use lima_freebsd.Base.{
  ℕ, zero, suc, ◌+◌, ◌/◌, List, [], ◌∷◌, ◌++◌, Bool, true, false, ◌&&◌, leb, length, if◌then◌else◌,
  Result, ok, err, Status, success,
}
use lima_freebsd.Device.Ips.{GpuId, mali400, mali450}

-- `LIMA_SCHED_PIPE_MAX_PROCESSOR`, `LIMA_SCHED_PIPE_MAX_MMU` and `LIMA_SCHED_PIPE_MAX_L2_CACHE`.
abbrev pub max_processor : ℕ
max_processor = 8

abbrev pub max_mmu : ℕ
max_mmu = 8

abbrev pub max_l2_cache : ℕ
max_l2_cache = 2

-- Places in `enum lima_ip_id`.
abbrev pub ip_ppmmu0 : ℕ
ip_ppmmu0 = 2

abbrev pub ip_pp0 : ℕ
ip_pp0 = 11

abbrev pub ip_l2_cache0 : ℕ
ip_l2_cache0 = 19

abbrev pub ip_l2_cache1 : ℕ
ip_l2_cache1 = 20

abbrev pub ip_bcast : ℕ
ip_bcast = 23

-- The arrays of `struct lima_sched_pipe` that hold the blocks: a list is the slots that are filled, in
-- order, and its length the `num_` field; the slots behind are NULL.
pub record Wiring : Type 0 where
  pub mmu : List ℕ
  pub processor : List ℕ
  pub l2_cache : List ℕ
  pub bcast : Bool

abbrev pub l2_cache_of : GpuId → ℕ → ℕ
l2_cache_of mali400 i = ip_l2_cache0
l2_cache_of mali450 i = ip_l2_cache1 + i / 4

-- One round of the loop; `pipe->l2_cache[i >> 2]` is NULL where the list is no longer than `i >> 2`.
unfoldable pub wire_pp : GpuId → (ℕ → Bool) → ℕ → Wiring → Wiring
wire_pp g present i w =
    if present (ip_pp0 + i) && (present (ip_ppmmu0 + i) && present (l2_cache_of g i))
    then record w {
      mmu = w.mmu ++ (ip_ppmmu0 + i) ∷ [];
      processor = w.processor ++ (ip_pp0 + i) ∷ [];
      l2_cache =
          if leb (length w.l2_cache) (i / 4)
          then w.l2_cache ++ l2_cache_of g i ∷ []
          else w.l2_cache;
    }
    else w

unfoldable pub wire_pps : ℕ → GpuId → (ℕ → Bool) → ℕ → Wiring → Wiring
wire_pps zero g present i w = w
wire_pps (suc n) g present i w = wire_pps n g present (i + 1) (wire_pp g present i w)

abbrev pub no_wiring : Wiring
no_wiring = record { mmu = []; processor = []; l2_cache = []; bcast = false }

unfoldable pub wire_pp_pipe : GpuId → (ℕ → Bool) → Wiring
wire_pp_pipe g present = record (wire_pps max_processor g present 0 no_wiring) {
  bcast = present ip_bcast;
}

-- How often the scheduler of a pipe and the reference to its task slab were taken and given back.
pub record PipeUse : Type 0 where
  pub sched_inits : ℕ
  pub sched_finis : ℕ
  pub slab_refs : ℕ
  pub slab_unrefs : ℕ

-- lima_init_gp_pipe and lima_init_pp_pipe, with the answers of lima_sched_pipe_init and of
-- lima_gp_pipe_init or lima_pp_pipe_init.
unfoldable pub init_pipe : Status → Status → PipeUse → Status × PipeUse
init_pipe sched slab u = elim sched [
  | err e ↦ (err e, u)
  | ok v ↦ elim slab [
    | err e ↦ (err e, record u { sched_inits = u.sched_inits + 1; sched_finis = u.sched_finis + 1 })
    | ok w ↦ (success, record u { sched_inits = u.sched_inits + 1; slab_refs = u.slab_refs + 1 })
  ]
]

-- lima_fini_gp_pipe and lima_fini_pp_pipe.
unfoldable pub fini_pipe : PipeUse → PipeUse
fini_pipe u = record u { sched_finis = u.sched_finis + 1; slab_unrefs = u.slab_unrefs + 1 }
