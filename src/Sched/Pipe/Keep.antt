-- ===== src/Sched/Pipe/Keep.antt =====
-- The address space and the power that a pipe of lima_sched.c holds: what its operations do to them.
use lima_freebsd.Base.{
  ℕ, ◌+◌, ◌<◌, ◌≡◌, refl, arith, true, false, if◌then◌else◌, ◌==◌, Option, none, some, is_some,
  Result-cases, Bool-cases, Option-cases, inl, inr, done,
}
use lima_freebsd.Sched.Pipe.{
  Ops, Blocks, Pipe, timedout_job, recover_work, pipe_task_done, task_in_flight, vm_put, on_mmus,
  each, pm_idle, fence_signal,
}

-- One reference where the address space is the pipe's.
abbrev pub held : Option ℕ → ℕ → ℕ
held none v = 0
held (some w) v = if v == w then 1 else 0

module _ (o : Ops) where
  abbrev pub in_flight : Pipe o → ℕ
  in_flight s = if task_in_flight o false s then 1 else 0

  -- A timeout that is handled while no task is in flight.
  abbrev pub missed : Pipe o → ℕ
  missed s = if task_in_flight o false s then 0 else 1

  -- `base` is the references to the address spaces that others hold, and `late` counts the timeouts
  -- that were handled while no task was in flight: each is a put of the device's power without a get.
  pub record Counted (late : ℕ) (base : ℕ → ℕ) (s : Pipe o) : Type 0 where
    pub vm : (v : ℕ) → s.vm_refs v ≡ base v + held s.current_vm v
    pub power : s.pm_gets + late ≡ s.pm_puts + in_flight s
    pub paired : is_some s.current_task ≡ is_some s.current_vm
    pub fresh : (t f : ℕ) → s.current_task ≡ some t → (s.tasks t).fence ≡ some f → f < s.fences

  -- No timeout was late.
  abbrev pub Inv : (ℕ → ℕ) → Pipe o → Type 0
  Inv base s = Counted 0 base s

  missed_or_in_flight : (s : Pipe o) → missed s + in_flight s ≡ 1
  missed_or_in_flight s = ground arith

  -- What `lima_vm_put` leaves alone.
  pub record Kept (s s' : Pipe o) : Type 0 where
    pub gets : s'.pm_gets ≡ s.pm_gets
    pub puts : s'.pm_puts ≡ s.pm_puts
    pub tasks : s'.tasks ≡ s.tasks
    pub current_task : s'.current_task ≡ s.current_task
    pub fences : s'.fences ≡ s.fences
    pub signaled : s'.signaled ≡ s.signaled

  pub vm_put-Kept : (old : Option ℕ) (s : Pipe o) → Kept s (vm_put o old s)
  vm_put-Kept none s = record {
    gets = refl;
    puts = refl;
    tasks = refl;
    current_task = refl;
    fences = refl;
    signaled = refl;
  }
  vm_put-Kept (some u) s = record {
    gets = refl;
    puts = refl;
    tasks = refl;
    current_task = refl;
    fences = refl;
    signaled = refl;
  }

  pub vm_put-held :
      (base : ℕ → ℕ) (old : Option ℕ) (s : Pipe o) (v : ℕ)
      → s.vm_refs v ≡ base v + held old v
      → (vm_put o old s).vm_refs v ≡ base v
  vm_put-held base none s v h = omega arith
  vm_put-held base (some u) s v h = ground arith

  pub in_flight_running :
      (s : Pipe o) (t f : ℕ)
      → s.current_task ≡ some t
      → (s.tasks t).fence ≡ some f
      → s.signaled f ≡ false
      → in_flight s ≡ 1
  unfolding task_in_flight
  in_flight_running s t f h k n = rw (h, task_in_flight) (rw (k, task_in_flight) (rw n refl))

  module _ (late : ℕ) (base : ℕ → ℕ) (b : Blocks) where
    pub timedout_job-Counted :
        (s : Pipe o) → Counted late base s → Counted (missed s + late) base (timedout_job o b s)
    unfolding timedout_job task_in_flight
    timedout_job-Counted s h =
        let s1 = record s { hw = on_mmus o o.mmu_page_fault_resume b (o.task_error s.hw) } in
        let k = vm_put-Kept s.current_vm s1 in
        record {
          vm = λ v. omega (arith, vm_put-held base s.current_vm s1 v (h.vm v));
          power = omega (arith, h.power, k.gets, k.puts, missed_or_in_flight s);
          paired = refl;
          fresh = λ t f e. cc;
        }

    -- The interrupt of a task in flight never follows NULL.
    pub pipe_task_done-Counted :
        (s : Pipe o)
        → task_in_flight o false s ≡ true
        → Counted late base s
        → (s' : Pipe o) × (pipe_task_done o s ≡ done s') × Counted late base s'
    unfolding pipe_task_done task_in_flight
    pipe_task_done-Counted s run h = elim (Option-cases s.current_task) [
      | inl e ↦ absurd (ground (arith, run))
      | inr (t, e) ↦ elim (Option-cases (s.tasks t).fence) [
        | inl n ↦ absurd (ground (arith, run))
        | inr (f, n) ↦ elim (Bool-cases s.error) [
          | inl x ↦ elim (Bool-cases (s.tasks t).recoverable) [
            | inl y ↦ (
              record s { recover_queued = true },
              ground arith,
              record { vm = h.vm; power = h.power; paired = h.paired; fresh = h.fresh },
            )
            | inr y ↦ (
              record s { faults = s.faults + 1 },
              ground arith,
              record { vm = h.vm; power = h.power; paired = h.paired; fresh = h.fresh },
            )
          ]
          | inr x ↦ (
            pm_idle o (fence_signal o f (record s { hw = o.task_fini s.hw })),
            ground arith,
            record {
              vm = h.vm;
              power = ground (arith, h.power);
              paired = h.paired;
              fresh = h.fresh;
            },
          )
        ]
      ]
    ]

    pub recover_work-Counted :
        (s : Pipe o) → Counted late base s → Counted late base (recover_work o b s)
    unfolding recover_work task_in_flight
    recover_work-Counted s h =
        elim (Result-cases
          (o.task_recover
            (on_mmus o o.mmu_flush_tlb b (each o o.l2_cache_flush b.l2_cache s.hw))).0) [
              | inl (u, e) ↦
                  rw (e, recover_work)
                    (record { vm = h.vm; power = h.power; paired = h.paired; fresh = h.fresh })
              | inr (x, e) ↦
                  rw (e, recover_work)
                    (record { vm = h.vm; power = h.power; paired = h.paired; fresh = h.fresh })
            ]
