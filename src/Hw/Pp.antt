-- ===== src/Hw/Pp.antt =====
-- lima_pp.c: the pixel processors. An IP block is its number; `async_reset` and the fields `error`,
-- `task` and `done` of the pipe are as in the code, `done` as the set of its bits.
pub mod Reg
pub mod Once
pub mod Writes
pub mod Room
use lima_freebsd.Base.{
  ℕ, zero, suc, ◌+◌, ◌-◌, ◌*◌, ◌%◌, List, [], ◌∷◌, Bool, true, false, not, ◌==◌, ◌||◌, ltb, update,
  if◌then◌else◌, einval, Result, ok, err, Status, success, Option, none, some,
}
use lima_freebsd.Base.Int.{u32_mod}
use lima_freebsd.Hw.{Hw, writel, readl, has_bit, poll_timeout}

abbrev rendering_active : ℕ
rendering_active = 1

abbrev ctrl_force_reset : ℕ
ctrl_force_reset = 0x20

abbrev pub ctrl_start_rendering : ℕ
ctrl_start_rendering = 0x40

abbrev ctrl_soft_reset : ℕ
ctrl_soft_reset = 0x80

abbrev irq_reset_completed : ℕ
irq_reset_completed = 0x1000

abbrev irq_mask_all : ℕ
irq_mask_all = 0x1fff

abbrev irq_mask_error : ℕ
irq_mask_error = 0xf18

abbrev irq_mask_used : ℕ
irq_mask_used = 0xf19

-- `dones` is how often lima_sched_pipe_task_done was called.
pub record Pipe : Type 0 where
  pub hw : Hw
  pub async_reset : ℕ → Bool
  pub error : Bool
  pub task : ℕ
  pub done : ℕ → Bool
  pub dones : ℕ

abbrev pub pp_write : ℕ → ℕ → ℕ → Pipe → Pipe
pp_write ip reg v s = record s { hw = writel ip reg v s.hw }

abbrev pub pp_read : ℕ → ℕ → Pipe → ℕ × Pipe
pp_read ip reg s = ((readl ip reg s.hw).0, record s { hw = (readl ip reg s.hw).1 })

-- `if (atomic_dec_and_test(&pipe->task)) lima_sched_pipe_task_done(pipe)`, on a 32-bit counter.
unfoldable pub dec_and_test : Pipe → Pipe
dec_and_test s =
    let n = (s.task + u32_mod - 1) % u32_mod in
    record s { task = n; dones = if n == 0 then s.dones + 1 else s.dones }

unfoldable pub handle_irq : ℕ → ℕ → Pipe → Pipe
handle_irq ip state s = pp_write ip Reg.int_clear state (
    if has_bit state irq_mask_error
    then pp_write ip Reg.int_mask 0 (record (pp_read ip Reg.status s).1 { error = true })
    else s)

-- lima_pp_irq_handler; true is `IRQ_HANDLED`.
unfoldable pub irq_handler : ℕ → Pipe → Bool × Pipe
irq_handler ip s =
    let (state, s') = pp_read ip Reg.int_status s in
    if state == 0 then (false, s') else (true, dec_and_test (handle_irq ip state s'))

-- One round of lima_pp_bcast_irq_handler.
unfoldable pub bcast_round : ℕ → ℕ → Pipe → Bool × Pipe
bcast_round i ip s =
    let (status, s1) = pp_read ip Reg.status s in
    let (state, s2) = pp_read ip Reg.int_status s1 in
    if s.done i
    then (false, s)
    else if state == 0
    then (
      false,
      if has_bit status rendering_active
          then s2
          else dec_and_test (record s2 { done = update s2.done i true }),
    )
    else (
      true,
      let s3 = handle_irq ip state s2 in dec_and_test (record s3 { done = update s3.done i true }),
    )

-- The loop, over the processors of the frame from number `i` on.
unfoldable pub bcast_rounds : List ℕ → ℕ → Pipe → Bool × Pipe
bcast_rounds [] i s = (false, s)
bcast_rounds (ip ∷ ips) i s =
    let (r, s') = bcast_round i ip s in
    let (r', s'') = bcast_rounds ips (i + 1) s' in (r || r', s'')

-- lima_pp_bcast_irq_handler; `none` is no current task.
unfoldable pub bcast_irq_handler : Option (List ℕ) → Pipe → Bool × Pipe
unfolding bcast_rounds
bcast_irq_handler none s = (false, s)
bcast_irq_handler (some ips) s = bcast_rounds ips 0 s

unfoldable pub soft_reset_async : ℕ → Pipe → Pipe
soft_reset_async ip s =
    if s.async_reset ip
    then s
    else (let s' =
          pp_write ip Reg.ctrl ctrl_soft_reset
            (pp_write ip Reg.int_rawstat irq_mask_all (pp_write ip Reg.int_mask 0 s)) in
        record s' { async_reset = update s'.async_reset ip true })

unfoldable pub soft_reset_poll : ℕ → Hw → Bool × Hw
soft_reset_poll ip h =
    let (status, h1) = readl ip Reg.status h in
    let (raw, h2) = readl ip Reg.int_rawstat h1 in
    if has_bit status rendering_active then (false, h1) else (raw == irq_reset_completed, h2)

-- lima_pp_soft_reset_async_wait_one; `n` is the rounds that the timeout leaves time for.
unfoldable pub wait_one : ℕ → ℕ → Pipe → Status × Pipe
wait_one n ip s =
    let (r, h) = poll_timeout n (soft_reset_poll ip) s.hw in
    elim r [
      | err e ↦ (err e, record s { hw = h })
      | ok u ↦ (
        success,
        pp_write ip Reg.int_mask irq_mask_used
            (pp_write ip Reg.int_clear irq_mask_all (record s { hw = h })),
      )
    ]

-- The loop over the processors of a broadcast; the caller does not look at the error.
unfoldable pub wait_each : ℕ → List ℕ → Pipe → Pipe
unfolding wait_one
wait_each n [] s = s
wait_each n (ip ∷ ips) s = wait_each n ips (wait_one n ip s).1

-- lima_pp_soft_reset_async_wait of a block, or of the broadcast block over the processors listed.
unfoldable pub async_wait : ℕ → ℕ → List ℕ → Pipe → Pipe
unfolding wait_each
async_wait n ip ips s =
    if s.async_reset ip
    then (let s' = wait_each n ips s in record s' { async_reset = update s'.async_reset ip false })
    else s

abbrev pub frame_reg_num : ℕ
frame_reg_num = 23

abbrev pub wb_reg_num : ℕ
wb_reg_num = 12

-- `n` words from `words k` on, at the register `reg` and those that follow.
unfoldable pub write_words : ℕ → ℕ → ℕ → ℕ → (ℕ → ℕ) → Pipe → Pipe
write_words zero ip reg k words s = s
write_words (suc n) ip reg k words s =
    write_words n ip (reg + 4) (k + 1) words (pp_write ip reg (words k) s)

unfoldable pub write_frame : ℕ → (ℕ → ℕ) → (ℕ → ℕ) → Pipe → Pipe
write_frame ip frame wb s = write_words wb_reg_num ip 0x300 24 wb (
    write_words wb_reg_num ip 0x200 12 wb
      (write_words wb_reg_num ip 0x100 0 wb (write_words frame_reg_num ip Reg.frame 0 frame s)))

-- `struct drm_lima_m400_pp_frame` and `struct drm_lima_m450_pp_frame`; the arrays are functions of the
-- index. A Mali-400 frame has no `pad` and no `use_dlbu`.
pub record Frame : Type 0 where
  pub frame : ℕ → ℕ
  pub num_pp : ℕ
  pub wb : ℕ → ℕ
  pub use_dlbu : Bool
  pub pad : ℕ
  pub plbu_array_address : ℕ → ℕ
  pub fragment_stack_address : ℕ → ℕ

-- lima_pp_task_validate: whether the pipe broadcasts, and its `num_processor`.
unfoldable pub task_validate : Bool → ℕ → Frame → Status
task_validate bcast num f =
    if (if bcast then not (f.pad == 0) else false)
    then err einval
    else if f.num_pp == 0 || ltb num f.num_pp
    then err einval
    else success

-- The loop over the processors of a broadcast frame.
unfoldable pub run_addresses : Frame → List ℕ → ℕ → Pipe → Pipe
run_addresses f [] i s = s
run_addresses f (ip ∷ ips) i s =
    let s1 = pp_write ip Reg.stack (f.fragment_stack_address i) s in
    run_addresses f ips (i + 1)
      (if f.use_dlbu then s1 else pp_write ip Reg.frame (f.plbu_array_address i) s1)

-- lima_pp_task_run with a broadcast block, over the first `num_pp` processors. The units of
-- lima_dlbu.c and lima_bcast.c are stubs that do nothing.
unfoldable pub task_run_bcast : ℕ → ℕ → ℕ → List ℕ → Frame → Pipe → Pipe
task_run_bcast n dlbu_va bcast ips f s =
    let s1 = async_wait n bcast ips (record s { done = λ i. false; task = f.num_pp }) in
    let words = if f.use_dlbu then update f.frame 0 dlbu_va else f.frame in
    pp_write bcast Reg.ctrl ctrl_start_rendering
      (run_addresses f ips 0 (write_frame bcast words f.wb s1))

-- The loop of lima_pp_task_run without one.
unfoldable pub run_each : ℕ → Frame → List ℕ → ℕ → Pipe → Pipe
unfolding async_wait write_frame
run_each n f [] i s = s
run_each n f (ip ∷ ips) i s =
    let words =
      update (update f.frame 0 (f.plbu_array_address i)) 12 (f.fragment_stack_address i) in
    run_each n f ips (i + 1) (
      pp_write ip Reg.ctrl ctrl_start_rendering
        (write_frame ip words f.wb (async_wait n ip (ip ∷ []) s)))

unfoldable pub task_run : ℕ → List ℕ → Frame → Pipe → Pipe
unfolding run_each
task_run n ips f s = run_each n f ips 0 (record s { task = f.num_pp })

-- lima_pp_task_fini: on the broadcast block, or on every processor.
unfoldable pub task_fini : List ℕ → Pipe → Pipe
unfolding soft_reset_async
task_fini [] s = s
task_fini (ip ∷ ips) s = task_fini ips (soft_reset_async ip s)

unfoldable pub hard_reset_poll : ℕ → Hw → Bool × Hw
hard_reset_poll ip h =
    let (v, h') = readl ip Reg.perf_cnt_0_limit (writel ip Reg.perf_cnt_0_limit 0xC01A0000 h) in
    (v == 0xC01A0000, h')

unfoldable pub hard_reset : ℕ → ℕ → Pipe → Status × Pipe
hard_reset n ip s =
    let s1 =
      pp_write ip Reg.ctrl ctrl_force_reset
        (pp_write ip Reg.int_mask 0 (pp_write ip Reg.perf_cnt_0_limit 0xC0FFE000 s)) in
    let (r, h) = poll_timeout n (hard_reset_poll ip) s1.hw in
    elim r [
      | err e ↦ (err e, record s1 { hw = h })
      | ok u ↦ (
        success,
        pp_write ip Reg.int_mask irq_mask_used (
            pp_write ip Reg.int_clear irq_mask_all
              (pp_write ip Reg.perf_cnt_0_limit 0 (record s1 { hw = h }))),
      )
    ]

-- lima_pp_task_error; its two reads are printed.
unfoldable pub task_error : ℕ → List ℕ → Pipe → Pipe
unfolding hard_reset
task_error n [] s = s
task_error n (ip ∷ ips) s =
    let s1 = (pp_read ip Reg.int_status s).1 in
    let s2 = (pp_read ip Reg.status s1).1 in task_error n ips (hard_reset n ip s2).1

-- lima_pp_hw_init.
unfoldable pub hw_init : ℕ → ℕ → Pipe → Status × Pipe
unfolding soft_reset_async
hw_init n ip s =
    let s1 = soft_reset_async ip (record s { async_reset = update s.async_reset ip false }) in
    let (r, s2) = wait_one n ip s1 in
    (r, record s2 { async_reset = update s2.async_reset ip false })
