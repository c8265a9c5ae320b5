-- ===== src/Hw/Gp.antt =====
-- lima_gp.c: the geometry processor. `frame` is the six words of `struct drm_lima_gp_frame`.
pub mod Recovery
use lima_freebsd.Base.{
  ℕ, zero, suc, ◌+◌, ◌-◌, ◌*◌, ◌%◌, List, [], ◌∷◌, Bool, true, false, not, ◌==◌, ◌&&◌, ◌||◌, ltb,
  update, bit_and, bit_or, if◌then◌else◌, einval, Errno, Result, ok, err, Status, success, Option,
  none, some,
}
use lima_freebsd.Base.Int.{u32_mod}
use lima_freebsd.Hw.{Hw, writel, readl, has_bit, poll_timeout}

abbrev pub int_rawstat : ℕ
int_rawstat = 0x24

abbrev pub int_clear : ℕ
int_clear = 0x28

abbrev pub int_mask : ℕ
int_mask = 0x2c

abbrev pub int_stat : ℕ
int_stat = 0x30

abbrev pub cmd : ℕ
cmd = 0x20

abbrev pub plbu_alloc_start_addr : ℕ
plbu_alloc_start_addr = 0x10

abbrev pub plbu_alloc_end_addr : ℕ
plbu_alloc_end_addr = 0x14

abbrev perf_cnt_0_limit : ℕ
perf_cnt_0_limit = 0x54

abbrev status_reg : ℕ
status_reg = 0x68

abbrev cmd_start_vs : ℕ
cmd_start_vs = 0x1

abbrev cmd_start_plbu : ℕ
cmd_start_plbu = 0x2

abbrev pub cmd_update_plbu_alloc : ℕ
cmd_update_plbu_alloc = 0x10

abbrev cmd_reset : ℕ
cmd_reset = 0x20

abbrev cmd_soft_reset : ℕ
cmd_soft_reset = 0x400

abbrev irq_plbu_out_of_mem : ℕ
irq_plbu_out_of_mem = 0x4

-- The ends of the two command lists.
abbrev irq_end_cmd_lst : ℕ
irq_end_cmd_lst = 0x3

abbrev status_active : ℕ
status_active = 0xa

abbrev irq_reset_completed : ℕ
irq_reset_completed = 0x80000

abbrev irq_mask_all : ℕ
irq_mask_all = 0x787fff

abbrev irq_mask_error : ℕ
irq_mask_error = 0x706e44

abbrev pub irq_mask_used : ℕ
irq_mask_used = 0x706e47

-- What the code reads and writes of the block, the pipe and the current task: `recoverable` is that of
-- the task, `none` where there is none, and `dones` how often lima_sched_pipe_task_done was called.
pub record Pipe : Type 0 where
  pub hw : Hw
  pub async_reset : Bool
  pub error : Bool
  pub recoverable : Option Bool
  pub dones : ℕ

-- The block `ip` of the geometry processor has the number 10.
abbrev ip : ℕ
ip = 10

abbrev pub gp_write : ℕ → ℕ → Pipe → Pipe
gp_write reg v s = record s { hw = writel ip reg v s.hw }

abbrev gp_read : ℕ → Pipe → ℕ × Pipe
gp_read reg s = ((readl ip reg s.hw).0, record s { hw = (readl ip reg s.hw).1 })

abbrev not_recoverable : Option Bool → Option Bool
not_recoverable none = none
not_recoverable (some r) = some false

abbrev task_done : Bool → Pipe → Pipe
task_done d s = if d then record s { dones = s.dones + 1 } else s

-- The branch for an error.
unfoldable pub irq_error : ℕ → Pipe → Pipe
irq_error state s =
    let s' = gp_write int_mask 0 s in
    record s' {
      error = true;
      recoverable =
          if bit_and state irq_mask_error == irq_plbu_out_of_mem
          then s.recoverable
          else not_recoverable s.recoverable;
    }

-- lima_gp_irq_handler; true is `IRQ_HANDLED`.
unfoldable pub irq_handler : Pipe → Bool × Pipe
unfolding irq_error
irq_handler s =
    let (state, s1) = gp_read int_stat s in
    let (status, s2) = gp_read status_reg s1 in
    if state == 0
    then (false, s2)
    else if has_bit state irq_mask_error
    then (true, task_done true (gp_write int_clear state (irq_error state s2)))
    else (
      true,
      task_done (has_bit state irq_end_cmd_lst && not (has_bit status status_active))
          (gp_write int_clear state (record s2 { error = false })),
    )

unfoldable pub soft_reset_async : Pipe → Pipe
soft_reset_async s =
    if s.async_reset
    then s
    else (let s' =
          gp_write cmd cmd_soft_reset
            (gp_write int_clear irq_reset_completed (gp_write int_mask 0 s)) in
        record s' { async_reset = true })

abbrev reset_poll : Hw → Bool × Hw
reset_poll h = (has_bit (readl ip int_rawstat h).0 irq_reset_completed, (readl ip int_rawstat h).1)

-- `n` is the rounds that the timeout leaves time for.
unfoldable pub async_wait : ℕ → Pipe → Status × Pipe
async_wait n s =
    if s.async_reset
    then (let (r, h) = poll_timeout n reset_poll s.hw in
        elim r [
          | err e ↦ (err e, record s { hw = h })
          | ok u ↦ (
            success,
            record (gp_write int_mask irq_mask_used
                (gp_write int_clear irq_mask_all (record s { hw = h }))) { async_reset = false },
          )
        ])
    else (success, s)

-- The words of a frame, from LIMA_GP_VSCL_START_ADDR to LIMA_GP_PLBU_ALLOC_END_ADDR.
pub record Frame : Type 0 where
  pub vscl_start : ℕ
  pub vscl_end : ℕ
  pub plbucl_start : ℕ
  pub plbucl_end : ℕ
  pub alloc_start : ℕ
  pub alloc_end : ℕ

unfoldable pub task_validate : Frame → Status
task_validate f =
    if ltb f.vscl_end f.vscl_start
      || (ltb f.plbucl_end f.plbucl_start || ltb f.alloc_end f.alloc_start)
    then err einval
    else if f.vscl_start == f.vscl_end && f.plbucl_start == f.plbucl_end
    then err einval
    else success

-- The loop over the buffers of a task: each is its address, as lima_vm_get_va tells it, and its
-- `heap_size`. The second component is the heap that is found.
unfoldable pub patch_heap : List (ℕ × ℕ) → Frame → Frame × Option (ℕ × ℕ)
patch_heap [] f = (f, none)
patch_heap ((va, size) ∷ bos) f =
    let rest = patch_heap bos f in
    if not (size == 0) && va == f.alloc_start
    then (record f { alloc_end = (f.alloc_start + size) % u32_mod }, some (va, size))
    else rest

unfoldable pub start_cmd : Frame → ℕ
start_cmd f =
    bit_or (if f.vscl_start == f.vscl_end then 0 else cmd_start_vs)
      (if f.plbucl_start == f.plbucl_end then 0 else cmd_start_plbu)

unfoldable pub write_frame : Frame → Pipe → Pipe
write_frame f s = gp_write plbu_alloc_end_addr f.alloc_end (
    gp_write plbu_alloc_start_addr f.alloc_start (
      gp_write 0xc f.plbucl_end
        (gp_write 0x8 f.plbucl_start (gp_write 0x4 f.vscl_end (gp_write 0x0 f.vscl_start s)))))

abbrev found : Option (ℕ × ℕ) → Option Bool → Option Bool
found none r = r
found (some h) r = some true

-- lima_gp_task_run, with the frame as it is left.
unfoldable pub task_run : ℕ → List (ℕ × ℕ) → Frame → Pipe → Frame × Option (ℕ × ℕ) × Pipe
unfolding write_frame async_wait
task_run n bos f s =
    let (f', heap) = patch_heap bos f in
    let s1 = (async_wait n (record s { recoverable = found heap s.recoverable })).1 in
    (f', heap, gp_write cmd (start_cmd f') (gp_write cmd cmd_update_plbu_alloc (write_frame f' s1)))

abbrev hard_poll : Hw → Bool × Hw
hard_poll h =
    let r = readl ip perf_cnt_0_limit (writel ip perf_cnt_0_limit 0xC01A0000 h) in
    (r.0 == 0xC01A0000, r.1)

unfoldable pub hard_reset : ℕ → Pipe → Status × Pipe
hard_reset n s =
    let s1 =
      gp_write cmd cmd_reset (gp_write int_mask 0 (gp_write perf_cnt_0_limit 0xC0FFE000 s)) in
    let (r, h) = poll_timeout n hard_poll s1.hw in
    elim r [
      | err e ↦ (err e, record s1 { hw = h })
      | ok u ↦ (
        success,
        gp_write int_mask irq_mask_used
            (gp_write int_clear irq_mask_all (gp_write perf_cnt_0_limit 0 (record s1 { hw = h }))),
      )
    ]

-- lima_gp_task_error; its two reads are printed.
unfoldable pub task_error : ℕ → Pipe → Pipe
unfolding hard_reset
task_error n s = (hard_reset n (gp_read status_reg (gp_read int_stat s).1).1).1

-- The registers that resume a task, once its heap has the size `size`.
unfoldable pub resume_frame : ℕ → Frame → Pipe → Frame × Pipe
resume_frame size f s =
    let f' = record f { alloc_end = (f.alloc_start + size) % u32_mod } in
    (
      f',
      gp_write cmd cmd_update_plbu_alloc (
          gp_write plbu_alloc_end_addr f'.alloc_end
            (gp_write plbu_alloc_start_addr f.alloc_end (gp_write int_mask irq_mask_used s))),
    )

-- lima_gp_task_recover: `grow` is what lima_heap_alloc does with the heap of the size given. The second
-- component is the size of the heap afterwards.
unfoldable pub task_recover : (ℕ → Status × ℕ) → ℕ → Frame → Pipe → Status × ℕ × Frame × Pipe
unfolding resume_frame
task_recover grow size f s =
    if (f.alloc_end + u32_mod - f.alloc_start) % u32_mod == size
    then (let (r, size') = grow size in
        elim r [
          | err e ↦ (err e, size', f, s)
          | ok u ↦ (success, size', (resume_frame size' f s).0, (resume_frame size' f s).1)
        ])
    else (success, size, (resume_frame size f s).0, (resume_frame size f s).1)

unfoldable pub hw_init : ℕ → Pipe → Status × Pipe
unfolding soft_reset_async async_wait
hw_init n s = async_wait n (soft_reset_async (record s { async_reset = false }))
