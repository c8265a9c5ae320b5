-- ===== src/Sched/Pipe.antt =====
-- lima_sched.c: one pipe, from the run of a job to its completion, its recovery or its timeout, and the
-- teardown of the pipe. A task, an address space and a fence are numbers; the registers are a parameter.
pub mod Keep
pub mod Launch
pub mod Teardown
pub mod Power
mod Tests
use lima_freebsd.Base.{
  ℕ, zero, suc, ◌+◌, ◌-◌, ◌%◌, List, [], ◌∷◌, Bool, true, false, not, ◌&&◌, ltb, if◌then◌else◌,
  update, Option, none, some, is_some, Errno, Result, ok, err, Status, success, Run, done, fault,
  out_of_fuel,
}
use lima_freebsd.Base.Int.{u32_mod}

-- The functions of `struct lima_sched_pipe` and those of lima_l2_cache.c and lima_mmu.c, on the state of
-- the registers. `task_run` tells whether it finds that the task can be recovered.
pub record Ops : Type 1 where
  pub Hw : Type 0
  pub l2_cache_flush : ℕ → Hw → Hw
  pub mmu_switch_vm : ℕ → ℕ → Hw → Hw
  pub mmu_page_fault_resume : ℕ → Hw → Hw
  pub mmu_flush_tlb : ℕ → Hw → Hw
  pub task_run : ℕ → Hw → Bool × Hw
  pub task_fini : Hw → Hw
  pub task_error : Hw → Hw
  pub task_recover : Hw → Status × Hw

-- `struct lima_sched_task`.
pub record Task : Type 0 where
  pub vm : ℕ
  pub fence : Option ℕ
  pub recoverable : Bool

-- The blocks of a pipe.
pub record Blocks : Type 0 where
  pub l2_cache : List ℕ
  pub mmu : List ℕ
  pub bcast_mmu : Option ℕ

-- What a run is answered: whether the job's finished fence carries an error, whether there is memory
-- for a fence, and whether the device resumes.
pub record RunAnswers : Type 0 where
  pub finished_error : Bool
  pub zalloc : Bool
  pub resume : Status

abbrev pub fini_timeout_ms : ℕ
fini_timeout_ms = 2000

abbrev pub fini_poll_ms : ℕ
fini_poll_ms = 10

-- One round more than there are sleeps.
abbrev pub fini_rounds : ℕ
fini_rounds = 201

module _ (o : Ops) where
  -- `struct lima_sched_pipe`, with the tasks, the references to each fence and each address space, the
  -- gets and puts of the device's power, whether `recover_work` is queued, and how often the
  -- scheduler was told of a fault. A new fence takes the number `fences`.
  pub record Pipe : Type 0 where
    pub hw : o.Hw
    pub current_task : Option ℕ
    pub current_vm : Option ℕ
    pub error : Bool
    pub fence_seqno : ℕ
    pub fences : ℕ
    pub tasks : ℕ → Task
    pub fence_refs : ℕ → ℕ
    pub signaled : ℕ → Bool
    pub vm_refs : ℕ → ℕ
    pub pm_gets : ℕ
    pub pm_puts : ℕ
    pub recover_queued : Bool
    pub faults : ℕ

  abbrev pub each : (ℕ → o.Hw → o.Hw) → List ℕ → o.Hw → o.Hw
  each f [] h = h
  each f (b ∷ bs) h = each f bs (f b h)

  -- `if (pipe->bcast_mmu) ... else for (...) ...`
  abbrev pub on_mmus : (ℕ → o.Hw → o.Hw) → Blocks → o.Hw → o.Hw
  on_mmus f b h = elim b.bcast_mmu [ some m ↦ f m h | none ↦ each f b.mmu h ]

  abbrev pub vm_put : Option ℕ → Pipe → Pipe
  vm_put none s = s
  vm_put (some v) s = record s { vm_refs = update s.vm_refs v (s.vm_refs v - 1) }

  abbrev pub vm_get : ℕ → Pipe → Pipe
  vm_get v s = record s { vm_refs = update s.vm_refs v (s.vm_refs v + 1) }

  abbrev pub fence_get : ℕ → Pipe → Pipe
  fence_get f s = record s { fence_refs = update s.fence_refs f (s.fence_refs f + 1) }

  abbrev pub fence_put : ℕ → Pipe → Pipe
  fence_put f s = record s { fence_refs = update s.fence_refs f (s.fence_refs f - 1) }

  abbrev pub fence_signal : ℕ → Pipe → Pipe
  fence_signal f s = record s { signaled = update s.signaled f true }

  -- lima_fence_create, once there is memory.
  unfoldable pub fence_create : Pipe → ℕ × Pipe
  fence_create s = (
    s.fences,
    record s {
      fence_seqno = (s.fence_seqno + 1) % u32_mod;
      fences = s.fences + 1;
      fence_refs = update s.fence_refs s.fences 1;
      signaled = update s.signaled s.fences false;
    },
  )

  -- lima_pm_busy and lima_pm_idle.
  unfoldable pub pm_busy : Status → Pipe → Status × Pipe
  pm_busy resume s = elim resume [
    | err e ↦ (err e, s)
    | ok u ↦ (success, record s { pm_gets = s.pm_gets + 1 })
  ]

  unfoldable pub pm_idle : Pipe → Pipe
  pm_idle s = record s { pm_puts = s.pm_puts + 1 }

  -- The address space of the pipe: the old one is given back and that of the task taken.
  unfoldable pub switch_vm : Blocks → ℕ → Pipe → Pipe
  switch_vm b v s =
      let s' = vm_get v (vm_put s.current_vm s) in
      record s' { current_vm = some v; hw = on_mmus (λ m. o.mmu_switch_vm m v) b s'.hw }

  -- From `task->fence = &fence->base` on.
  unfoldable pub start : Blocks → ℕ → ℕ → Pipe → Pipe
  unfolding switch_vm
  start b t f s =
      let s1 = record (fence_get f s) {
        tasks = update s.tasks t (record (s.tasks t) { fence = some f });
        current_task = some t;
        hw = each o.l2_cache_flush b.l2_cache s.hw;
      } in
      let s2 = switch_vm b (s.tasks t).vm s1 in
      let (r, hw) = o.task_run t s2.hw in
      record s2 {
        error = false;
        hw = hw;
        tasks =
            if r then update s2.tasks t (record (s2.tasks t) { recoverable = true }) else s2.tasks;
      }

  unfoldable pub run_job : Blocks → RunAnswers → ℕ → Pipe → Option ℕ × Pipe
  run_job b a t s =
      if a.finished_error
      then (none, s)
      else if not a.zalloc
      then (none, s)
      else (let (f, s1) = fence_create s in
          let (r, s2) = pm_busy a.resume s1 in
          elim r [ err e ↦ (none, fence_put f s2) | ok u ↦ (some f, start b t f s2) ])

  -- `pipe->current_vm = NULL; pipe->current_task = NULL` after `lima_vm_put`.
  abbrev pub drop_task : Pipe → Pipe
  drop_task s = record (vm_put s.current_vm s) { current_vm = none; current_task = none }

  -- lima_sched_timedout_job, without the dump and up to the calls of the scheduler.
  unfoldable pub timedout_job : Blocks → Pipe → Pipe
  unfolding pm_idle
  timedout_job b s =
      pm_idle (drop_task (record s { hw = on_mmus o.mmu_page_fault_resume b (o.task_error s.hw) }))

  unfoldable pub recover_work : Blocks → Pipe → Pipe
  recover_work b s =
      let hw = on_mmus o.mmu_flush_tlb b (each o.l2_cache_flush b.l2_cache s.hw) in
      let (r, hw') = o.task_recover hw in
      elim r [
        | ok u ↦ record s { hw = hw'; recover_queued = false }
        | err e ↦ record s { hw = hw'; recover_queued = false; faults = s.faults + 1 }
      ]

  unfoldable pub pipe_task_done : Pipe → Run Pipe
  unfolding pm_idle
  pipe_task_done s =
      if s.error
      then done (elim s.current_task [
        | none ↦ record s { faults = s.faults + 1 }
        | some t ↦
            if (s.tasks t).recoverable
            then record s { recover_queued = true }
            else record s { faults = s.faults + 1 }
      ])
      else (elim s.current_task [
        | none ↦ fault
        | some t ↦ elim (s.tasks t).fence [
          | none ↦ fault
          | some f ↦ done (pm_idle (fence_signal f (record s { hw = o.task_fini s.hw })))
        ]
      ])

  -- The first argument is `fake_wedge`.
  unfoldable pub task_in_flight : Bool → Pipe → Bool
  task_in_flight fake s = elim s.current_task [
    | none ↦ false
    | some t ↦ elim (s.tasks t).fence [
      | none ↦ false
      | some f ↦ if fake then true else not (s.signaled f)
    ]
  ]

  -- The loop of lima_sched_pipe_fini; `during w` is what happens to the pipe while it sleeps for the
  -- time that follows `w`.
  unfoldable pub wait_idle : ℕ → Bool → (ℕ → Pipe → Pipe) → ℕ → Pipe → Run Pipe
  unfolding task_in_flight
  wait_idle zero fake during waited s = out_of_fuel
  wait_idle (suc fuel) fake during waited s =
      let rest = wait_idle fuel fake during (waited + fini_poll_ms) (during waited s) in
      if task_in_flight fake s && ltb waited fini_timeout_ms then rest else done s

  -- The branch for a task that is still busy.
  unfoldable pub force : Option ℕ → Pipe → Pipe
  force fence s =
      let s' = record s { error = true; hw = o.task_error s.hw } in
      drop_task (elim fence [ none ↦ s' | some f ↦ fence_signal f s' ])

  unfoldable pub teardown : Bool → Pipe → Pipe
  unfolding task_in_flight force
  teardown fake s = elim s.current_task [
    | none ↦ s
    | some t ↦ if task_in_flight fake s then force (s.tasks t).fence s else drop_task s
  ]

  -- lima_sched_pipe_fini, up to the calls that end the scheduler.
  unfoldable pub pipe_fini : Bool → (ℕ → Pipe → Pipe) → Pipe → Run Pipe
  unfolding wait_idle teardown
  pipe_fini fake during s = elim (wait_idle fini_rounds fake during 0 s) [
    | done s' ↦ done (teardown fake s')
    | fault ↦ fault
    | out_of_fuel ↦ out_of_fuel
  ]
