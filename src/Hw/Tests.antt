-- ===== src/Hw/Tests.antt =====
-- Runs of the units' code, lima_pp.c to lima_pmu.c, at concrete inputs.
use lima_freebsd.Hw.Pmu.{pmu_status}
use lima_freebsd.Base.{
  ℕ, ◌+◌, ◌<◌, ◌≡◌, ◌≢◌, refl, arith, [], ◌∷◌, true, false, ◌==◌, none, ◌⊎◌, some, Status, success,
  if◌then◌else◌,
}
use lima_freebsd.Hw.{Hw, write, has_bit, readl}
use lima_freebsd.Hw.Log.{latest}
use lima_freebsd.Hw.Mmu.Laws.{Resumed, page_fault_resume-irq_handler}
use lima_freebsd.Hw.L2.{L2}
use lima_freebsd.Hw.L2.Laws.{InitPost, init-Enabled}
use lima_freebsd.Hw.Pmu.Laws.{Powered, quiet, first_done, init-Powered}
use lima_freebsd.Hw.Pp.{Frame, Pipe, task_run_bcast}
use lima_freebsd.Hw.Pp.Once.{pending, bcast_irqs, bcast_irqs-once}
use lima_freebsd.Hw.Gp
use lima_freebsd.Hw.Gp.{
  task_recover, start_cmd, int_mask, cmd, irq_mask_used, cmd_update_plbu_alloc,
  plbu_alloc_start_addr, plbu_alloc_end_addr,
}
use lima_freebsd.Hw.Gp.Recovery.{Gave, task_recover-Gave}

-- Every register reads 1.
abbrev ones : Hw
ones = record { answers = λ ip reg n. 1; reads = 0; writes = [] }

-- The directory register of each MMU reads back as it should, and then 0; the other registers read 1.
abbrev self_test : Hw
self_test = record {
  answers = λ ip reg n. if reg == 0 then (if n == 0 then 0xCAFEB000 else 0) else 1;
  reads = 0;
  writes = [];
}

abbrev busy : L2
busy = record { hw = ones; timeouts = 7 }

abbrev idle : Pipe
idle = record {
  hw = ones;
  async_reset = λ i. false;
  error = false;
  task = 0;
  done = λ i. false;
  dones = 0;
}

abbrev two : Frame
two = record {
  frame = λ i. i;
  num_pp = 2;
  wb = λ i. i;
  use_dlbu = false;
  pad = 0;
  plbu_array_address = λ i. i;
  fragment_stack_address = λ i. i;
}

bcast_irqs-once_example :
    let s' = bcast_irqs 3 (11 ∷ 12 ∷ []) (task_run_bcast 5 0 24 (11 ∷ 12 ∷ []) two idle) in
    (s'.task ≡ pending 2 0 s'.done) × (s'.dones ≡ 0 + (if pending 2 0 s'.done == 0 then 1 else 0))
bcast_irqs-once_example =
    bcast_irqs-once 5 0 24 3 (11 ∷ 12 ∷ []) two idle refl (omega arith) (omega arith)

abbrev gp_frame : lima_freebsd.Hw.Gp.Frame
gp_frame = record {
  vscl_start = 0x1000;
  vscl_end = 0x1100;
  plbucl_start = 0x2000;
  plbucl_end = 0x2000;
  alloc_start = 0x10000;
  alloc_end = 0x11000;
}

abbrev gp_pipe : lima_freebsd.Hw.Gp.Pipe
gp_pipe = record {
  hw = ones;
  async_reset = false;
  error = true;
  recoverable = some true;
  dones = 0;
}

abbrev grow : ℕ → Status × ℕ
grow n = (success, n + n)

recovers : (task_recover grow 0x1000 gp_frame gp_pipe).0 ≡ success
unfolding task_recover
recovers = refl

task_recover-Gave_example :
    let (r, size', f', s') = task_recover grow 0x1000 gp_frame gp_pipe in
    Gave size' size' f'
    × (0x1000 < size')
    × (s'.hw.writes
        ≡ write 10 cmd cmd_update_plbu_alloc
          ∷ write 10 plbu_alloc_end_addr (0x10000 + size')
          ∷ write 10 plbu_alloc_start_addr (0x10000 + 0x1000)
          ∷ write 10 int_mask irq_mask_used
          ∷ [])
task_recover-Gave_example =
    task_recover-Gave grow 0x1000 0x1000 gp_frame gp_pipe (λ h. (omega arith, omega arith))
      (record { below = omega arith; fits = omega arith; end = refl }) recovers

page_fault_resume-irq_handler_example :
    let (handled, why, h1) = lima_freebsd.Hw.Mmu.irq_handler 1 none ones in
    (handled ≡ true)
    × (latest 1 0x1c h1.writes ≡ some 0)
    × Resumed 0x4000 1
        (has_bit (h1.answers 1 4 h1.reads) 2)
        h1
        (lima_freebsd.Hw.Mmu.page_fault_resume 5 0x4000 1 h1)
page_fault_resume-irq_handler_example =
    page_fault_resume-irq_handler 5 0x4000 1 none ones (ground arith)

init-Powered_example :
    let (r, h') = lima_freebsd.Hw.Pmu.init 0 ones in
    ((ones.answers 0 pmu_status 0 ≡ 0) × (r ≡ success) × (h'.writes ≡ (quiet 0 ones).writes))
    ⊎ ((ones.answers 0 pmu_status 0 ≢ 0)
        × Powered 0 1 (quiet 0 ones) (first_done 100 (λ n. 1) 1) r h')
init-Powered_example = init-Powered 0 ones

init-Enabled_example :
    let (r, s') = lima_freebsd.Hw.L2.init 5 (λ i. false) 21 busy in InitPost 5 21 true busy r s'
init-Enabled_example = init-Enabled 5 (λ i. false) 21 busy
