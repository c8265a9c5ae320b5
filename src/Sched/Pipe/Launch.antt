-- ===== src/Sched/Pipe/Launch.antt =====
-- lima_sched_run_job, and what the pipe holds afterwards.
use lima_freebsd.Base.{
  ℕ, ◌+◌, ◌<◌, ◌≡◌, refl, arith, Bool, true, false, if◌then◌else◌, some, update, Result-cases,
  Bool-cases, Option-cases, inl, inr, ok, err, success, ap, update_self, ◌∙◌, Errno,
}
use lima_freebsd.Sched.Pipe.{
  Ops, Task, Blocks, RunAnswers, Pipe, run_job, start, switch_vm, task_in_flight, each,
  fence_create, fence_get, fence_put, pm_busy,
}
use lima_freebsd.Sched.Pipe.Keep.{held, Counted, Kept, vm_put-Kept, vm_put-held, in_flight_running}

module _ (o : Ops) where
  module _ (late : ℕ) (base : ℕ → ℕ) (b : Blocks) where
    switch_vm-held :
        (s : Pipe o) (w v : ℕ)
        → s.vm_refs v ≡ base v + held s.current_vm v
        → (switch_vm o b w s).vm_refs v ≡ base v + held (some w) v
    unfolding switch_vm
    switch_vm-held s w v h = ground (arith, vm_put-held o base s.current_vm s v h)

    switch_vm-Kept : (s : Pipe o) (w : ℕ) → Kept o s (switch_vm o b w s)
    unfolding switch_vm
    switch_vm-Kept s w =
        let k = vm_put-Kept o s.current_vm s in
        record {
          gets = k.gets;
          puts = k.puts;
          tasks = k.tasks;
          current_task = k.current_task;
          fences = k.fences;
          signaled = k.signaled;
        }

    -- From the switch on, with the answer of `task_run`.
    abbrev launched : ℕ → Bool → o.Hw → Pipe o → Pipe o
    launched t r hw s = record s {
      error = false;
      hw = hw;
      tasks = if r then update s.tasks t (record (s.tasks t) { recoverable = true }) else s.tasks;
    }

    launched-Counted :
        (t f w : ℕ) (r : Bool) (hw : o.Hw) (s : Pipe o)
        → s.current_task ≡ some t
        → (s.tasks t).fence ≡ some f
        → s.signaled f ≡ false
        → f < s.fences
        → s.pm_gets + late ≡ s.pm_puts + 1
        → ((v : ℕ) → s.vm_refs v ≡ base v + held s.current_vm v)
        → s.current_vm ≡ some w
        → Counted o late base (launched t r hw s)
    launched-Counted t f w r hw s ht hf new low power vm hw' = record {
      vm = vm;
      power = omega (arith, power, in_flight_running o (launched t r hw s) t f ht fence new);
      paired = rw (ht, hw');
      fresh = λ t' f' e k. ground (arith, fence);
    }
      where
        fence : ((launched t r hw s).tasks t).fence ≡ some f
        fence = elim (Bool-cases r) [
          | inl e ↦ rw e (rw (update_self s.tasks t) hf)
          | inr e ↦ rw e hf
        ]

    -- The task `t` runs with the fence `f`, which is not signalled.
    start-Counted :
        (t f : ℕ) (s : Pipe o)
        → s.signaled f ≡ false
        → f < s.fences
        → s.pm_gets + late ≡ s.pm_puts + 1
        → ((v : ℕ) → s.vm_refs v ≡ base v + held s.current_vm v)
        → Counted o late base (start o b t f s)
    unfolding start
    start-Counted t f s new low power vm =
        launched-Counted t f w _ _ s2 k.current_task
          (ap (λ (x : ℕ → Task). (x t).fence) k.tasks ∙ ap Task.fence (update_self s.tasks t _))
          (ap (λ (x : ℕ → Bool). x f) k.signaled ∙ new) (omega (arith, low, k.fences))
          (omega (arith, power, k.gets, k.puts)) (λ v. switch_vm-held s1 w v (vm v)) current
      where
        w : ℕ
        w = (s.tasks t).vm

        s1 : Pipe o
        s1 = record (fence_get o f s) {
          tasks = update s.tasks t (record (s.tasks t) { fence = some f });
          current_task = some t;
          hw = each o o.l2_cache_flush b.l2_cache s.hw;
        }

        s2 : Pipe o
        s2 = switch_vm o b w s1

        k : Kept o s1 s2
        k = switch_vm-Kept s1 w

        current : s2.current_vm ≡ some w
        current = unfold switch_vm in refl

    -- A new fence is none that a task has.
    in_flight-fence_create :
        (s : Pipe o)
        → Counted o late base s
        → task_in_flight o false (fence_create o s).1 ≡ task_in_flight o false s
    unfolding fence_create task_in_flight
    in_flight-fence_create s h = elim (Option-cases s.current_task) [
      | inl e ↦ rw e refl
      | inr (t, e) ↦ rw e (elim (Option-cases (s.tasks t).fence) [
        | inl n ↦ rw n refl
        | inr (f, n) ↦ rw n (ground (arith, h.fresh t f))
      ])
    ]

    fence_create-Counted :
        (s : Pipe o)
        → Counted o late base s
        → Counted o late base (fence_put o (fence_create o s).0 (fence_create o s).1)
    unfolding fence_create task_in_flight
    fence_create-Counted s h = record {
      vm = h.vm;
      power = omega (
        arith,
        h.power,
        ap (λ (x : Bool). let n : ℕ = if x then 1 else 0 in n) (in_flight-fence_create s h),
      );
      paired = h.paired;
      fresh = λ t f e k. omega (arith, h.fresh t f e k);
    }

    abbrev powered : Pipe o → Pipe o
    powered s = record s { pm_gets = s.pm_gets + 1 }

    powered_run :
        (t : ℕ) (s : Pipe o)
        → task_in_flight o false s ≡ false
        → Counted o late base s
        → Counted o late base (start o b t (fence_create o s).0 (powered (fence_create o s).1))
    unfolding fence_create
    powered_run t s idle h =
        start-Counted t s.fences (powered (fence_create o s).1)
          (update_self s.signaled s.fences false) (omega arith)
          (omega (arith, h.power, ap (λ (x : Bool). let n : ℕ = if x then 1 else 0 in n) idle)) h.vm

    pub run_job-Counted :
        (a : RunAnswers) (t : ℕ) (s : Pipe o)
        → task_in_flight o false s ≡ false
        → Counted o late base s
        → Counted o late base (run_job o b a t s).1
    unfolding run_job
    run_job-Counted a t s idle h = elim (Bool-cases a.finished_error) [
      | inl e ↦ rw (e, run_job) h
      | inr e ↦ elim (Bool-cases a.zalloc) [
        | inr z ↦ rw (e, run_job) (rw (z, run_job) h)
        | inl z ↦ elim (Result-cases a.resume) [
          | inr (x, r) ↦
              rw (e, run_job)
                (rw (z, run_job) (rw (refused x r) (rw (refused x r) (fence_create-Counted s h))))
          | inl (u, r) ↦
              rw (e, run_job)
                (rw (z, run_job) (rw (resumed u r) (rw (resumed u r) (powered_run t s idle h))))
        ]
      ]
    ]
      where
        refused :
            (x : Errno)
            → a.resume ≡ err x
            → pm_busy o a.resume (fence_create o s).1 ≡ (err x, (fence_create o s).1)
        refused x r = unfold pm_busy in rw r refl

        resumed :
            (u : Unit)
            → a.resume ≡ ok u
            → pm_busy o a.resume (fence_create o s).1 ≡ (success, powered (fence_create o s).1)
        resumed u r = unfold pm_busy in rw r refl
