-- ===== src/Device/Tests.antt =====
-- Runs of lima_device.c at concrete inputs: a Mali-400 with two pixel processors.
use lima_freebsd.Base.{
  ℕ, ◌≤◌, ◌≡◌, refl, [], true, false, ltb, ◌||◌, ◌==◌, length, if◌then◌else◌, enodev, etimedout,
  enxio, ok, err, success,
}
use lima_freebsd.Base.Int.{pos}
use lima_freebsd.Device.Power.{Power, clk_stage}
use lima_freebsd.Device.Ips.{GpuId, mali400, mali450, IpAnswers, Ips, ip_desc, init_ips}
use lima_freebsd.Device.Pipes.{
  PipeUse, Wiring, wire_pp_pipe, max_processor, max_mmu, max_l2_cache, no_wiring,
}
use lima_freebsd.Device.Pipes.Bounds.{wire_pp_pipe_fits}
use lima_freebsd.Device.Life.{Device, Answers, device_init, device_resume}
use lima_freebsd.Device.Life.Up.{Post, device_init-Post}
use lima_freebsd.Device.Life.Sleep.{SleepPost, device_resume-SleepPost}

abbrev off : Power
off = record {
  bus_on = 0;
  bus_off = 0;
  core_on = 0;
  core_off = 0;
  deasserted = 0;
  asserted = 0;
  regulator_on = 0;
  regulator_off = 0;
  reset = false;
  regulator = false;
}

abbrev powered : lima_freebsd.Device.Power.Answers
powered = record {
  stage = pos 3;
  get_bus = success;
  get_core = success;
  get_reset = ok true;
  enable_bus = success;
  force_pll = success;
  enable_core = success;
  deassert = success;
  get_regulator = err enodev;
  enable_regulator = success;
}

-- The processors pp2 and pp3 and their MMUs do not answer.
abbrev answer : ℕ → IpAnswers
answer i =
    if i == 4 || i == 5 || i == 13 || i == 14
    then record { irq = err enxio; init = success; resume = success }
    else record { irq = success; init = success; resume = success }

abbrev no_ips : Ips
no_ips = record {
  present = λ i. false;
  inits = λ i. 0;
  finis = λ i. 0;
  resumes = λ i. 0;
  suspends = λ i. 0;
}

abbrev unused : PipeUse
unused = record { sched_inits = 0; sched_finis = 0; slab_refs = 0; slab_unrefs = 0 }

abbrev board : Device
board = record {
  id = mali400;
  power = off;
  vm_gets = 0;
  vm_puts = 0;
  dlbu = false;
  dlbu_allocs = 0;
  dlbu_frees = 0;
  ips = no_ips;
  gp = unused;
  pp = unused;
  wiring = no_wiring;
  error_tasks = [];
}

-- The scheduler of the pixel pipe fails.
abbrev answers : Answers
answers = record {
  power = powered;
  vm_create = true;
  dma_alloc = true;
  ioremap = success;
  ips = answer;
  gp_sched = success;
  gp_slab = success;
  pp_sched = err etimedout;
  pp_slab = success;
  devfreq = success;
}

full : clk_stage answers.power.stage ≡ 3
unfolding clk_stage
full = refl

device_init-Post_example : Post board (device_init answers board)
device_init-Post_example = device_init-Post answers board full refl (λ j. refl)

device_resume-SleepPost_example : SleepPost board (device_resume answers board)
device_resume-SleepPost_example = device_resume-SleepPost answers board full

two_processors :
    length (wire_pp_pipe mali400 (init_ips mali400 ip_desc answer 0 no_ips).2.present).processor ≡ 2
unfolding wire_pp_pipe lima_freebsd.Device.Pipes.wire_pps lima_freebsd.Device.Pipes.wire_pp init_ips
    lima_freebsd.Device.Ips.init_ip ip_desc
two_processors = refl

wire_pp_pipe_fits_example :
    let w = wire_pp_pipe mali450 (λ i. ltb i 22) in
    (length w.processor ≤ max_processor)
    × (length w.mmu ≤ max_mmu)
    × (length w.l2_cache ≤ max_l2_cache)
    × (length w.mmu ≡ length w.processor)
wire_pp_pipe_fits_example = wire_pp_pipe_fits mali450 (λ i. ltb i 22)
