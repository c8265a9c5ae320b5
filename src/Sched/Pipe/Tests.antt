-- ===== src/Sched/Pipe/Tests.antt =====
-- Runs of a pipe at concrete inputs: the registers are a count of what is done to them.
use lima_freebsd.Base.{ℕ, ◌+◌, ◌≡◌, refl, arith, [], ◌∷◌, true, false, none, success, done, update}
use lima_freebsd.Sched.Pipe.{
  Ops, Blocks, RunAnswers, Pipe, run_job, timedout_job, task_in_flight, pipe_fini, start,
  fence_create, pm_busy, switch_vm, pipe_task_done,
}
use lima_freebsd.Sched.Pipe.Keep.{Inv, Counted, missed}
use lima_freebsd.Sched.Pipe.Teardown.{
  run, time_out, Trace, here, next, Trace-Counted, pipe_fini-IsEmpty, end,
}
use lima_freebsd.Sched.Pipe.Power.{timedout_job-late, pipe_fini_forced}

abbrev count : Ops
count = record {
  Hw = ℕ;
  l2_cache_flush = λ i n. n + 1;
  mmu_switch_vm = λ i v n. n + 1;
  mmu_page_fault_resume = λ i n. n + 1;
  mmu_flush_tlb = λ i n. n + 1;
  task_run = λ t n. (false, n + 1);
  task_fini = λ n. n + 1;
  task_error = λ n. n + 1;
  task_recover = λ n. (success, n + 1);
}

abbrev blocks : Blocks
blocks = record { l2_cache = 19 ∷ []; mmu = 2 ∷ 3 ∷ []; bcast_mmu = none }

abbrev granted : RunAnswers
granted = record { finished_error = false; zalloc = true; resume = success }

abbrev idle : Pipe count
idle = record {
  hw = 0;
  current_task = none;
  current_vm = none;
  error = false;
  fence_seqno = 0;
  fences = 0;
  tasks = λ t. record { vm = 5; fence = none; recoverable = false };
  fence_refs = λ f. 0;
  signaled = λ f. false;
  vm_refs = λ v. 3;
  pm_gets = 0;
  pm_puts = 0;
  recover_queued = false;
  faults = 0;
}

base : ℕ → ℕ
base v = 3

idle-Inv : Inv count base idle
unfolding task_in_flight base
idle-Inv = record {
  vm = λ v. refl;
  power = refl;
  paired = refl;
  fresh = λ t f e k. absurd (ground (arith, e));
}

abbrev busy : Pipe count
busy = (run_job count blocks granted 7 idle).1

idle_flight : task_in_flight count false idle ≡ false
unfolding task_in_flight
idle_flight = refl

busy_flight : task_in_flight count false busy ≡ true
unfolding task_in_flight run_job start fence_create pm_busy switch_vm
busy_flight = refl

abbrev runs : Trace count blocks idle 0 busy
runs = next here (run granted 7 idle idle_flight)

busy-Inv : Inv count base busy
busy-Inv = Trace-Counted count base blocks 0 idle-Inv runs

abbrev finished : Pipe count
finished = record busy { hw = busy.hw + 1; signaled = update busy.signaled 0 true; pm_puts = 1 }

busy_ends : pipe_task_done count busy ≡ done finished
unfolding pipe_task_done run_job start fence_create pm_busy switch_vm
busy_ends = refl

finished_flight : task_in_flight count false finished ≡ false
unfolding task_in_flight run_job start fence_create pm_busy switch_vm
finished_flight = refl

finished-Inv : Inv count base finished
finished-Inv =
    Trace-Counted count base blocks 0 idle-Inv (next runs (end busy finished busy_flight busy_ends))

-- The timer of the task fires when the interrupt has just ended it.
abbrev over :
    Trace count blocks idle (missed count finished + 0) (timedout_job count blocks finished)
over = next (next runs (end busy finished busy_flight busy_ends)) (time_out finished)

Trace-Counted_example : Counted count 1 base (timedout_job count blocks finished)
unfolding task_in_flight run_job pm_busy start fence_create switch_vm
Trace-Counted_example = Trace-Counted count base blocks 0 idle-Inv over

pipe_fini-IsEmpty_example :
    (s' : Pipe count) × (pipe_fini count true (λ w s. timedout_job count blocks s) busy ≡ done s')
    × ((s'.current_task ≡ none) × (s'.current_vm ≡ none) × ((v : ℕ) → s'.vm_refs v ≡ base v))
pipe_fini-IsEmpty_example =
    pipe_fini-IsEmpty count base blocks 0 true (λ w s. timedout_job count blocks s) busy busy-Inv
      (λ w s. (missed count s + 0, next here (time_out s)))

timedout_job-late_example :
    (timedout_job count blocks finished).pm_puts ≡ (timedout_job count blocks finished).pm_gets + 1
timedout_job-late_example =
    timedout_job-late count base blocks finished finished-Inv finished_flight

pipe_fini_forced_example :
    (s' : Pipe count) × (pipe_fini count false (λ w s. s) busy ≡ done s')
    × (s'.pm_gets ≡ s'.pm_puts + 1)
pipe_fini_forced_example =
    pipe_fini_forced count base blocks (λ w s. s) busy busy-Inv busy_flight (λ w s h. h)
