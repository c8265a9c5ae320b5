-- ===== src/Sched/Pipe/Teardown.antt =====
-- Histories of a pipe, and its teardown.
use lima_freebsd.Base.{
  ℕ, zero, suc, ◌+◌, ◌*◌, ◌≤◌, ◌≡◌, refl, arith, Bool, true, false, ltb, ◌&&◌, none, update,
  Bool-cases, Option-cases, inl, inr, done, subst,
}
use lima_freebsd.Sched.Pipe.{
  Ops, Blocks, RunAnswers, Pipe, drop_task, run_job, timedout_job, recover_work, pipe_task_done,
  task_in_flight, wait_idle, teardown, force, pipe_fini, fini_timeout_ms, fini_poll_ms, fini_rounds,
  fence_signal,
}
use lima_freebsd.Sched.Pipe.Keep.{
  held, missed, Counted, timedout_job-Counted, recover_work-Counted, pipe_task_done-Counted,
  vm_put-held,
}
use lima_freebsd.Sched.Pipe.Launch.{run_job-Counted}

module _ (o : Ops) where
  abbrev pub mark : ℕ → Bool → Pipe o → Pipe o
  mark t r s = record s { tasks = update s.tasks t (record (s.tasks t) { recoverable = r }) }

  -- What happens to a pipe, with the number of late timeouts in it. The scheduler gives it a job only
  -- when none is in flight, and an interrupt that ends a job is that of the job in flight; the handler
  -- of a timeout runs at any time. An interrupt handler also writes registers and the fields `error`
  -- and `recoverable`.
  pub data Step (b : Blocks) : ℕ → Pipe o → Pipe o → Type 0 where
    run :
        (a : RunAnswers) (t : ℕ) (s : Pipe o)
        → task_in_flight o false s ≡ false
        → Step b 0 s (run_job o b a t s).1
    handle : (hw : o.Hw) (e : Bool) (s : Pipe o) → Step b 0 s (record s { hw = hw; error = e })
    judge : (t : ℕ) (r : Bool) (s : Pipe o) → Step b 0 s (mark t r s)
    end :
        (s s' : Pipe o)
        → task_in_flight o false s ≡ true
        → pipe_task_done o s ≡ done s'
        → Step b 0 s s'
    recover : (s : Pipe o) → Step b 0 s (recover_work o b s)
    time_out : (s : Pipe o) → Step b (missed o s) s (timedout_job o b s)

  pub data Trace (b : Blocks) (s : Pipe o) : ℕ → Pipe o → Type 0 where
    here : Trace b s 0 s
    next : {k n : ℕ} {t u : Pipe o} → Trace b s k t → Step b n t u → Trace b s (n + k) u

  mark-fence :
      (t t' : ℕ) (r : Bool) (s : Pipe o) → ((mark t r s).tasks t').fence ≡ (s.tasks t').fence
  mark-fence t t' r s = ground arith

  mark-in_flight :
      (t : ℕ) (r : Bool) (s : Pipe o)
      → task_in_flight o false (mark t r s) ≡ task_in_flight o false s
  unfolding task_in_flight
  mark-in_flight t r s = elim (Option-cases s.current_task) [
    | inl e ↦ rw e refl
    | inr (t', e) ↦ rw (e, task_in_flight) (rw (mark-fence t t' r s, task_in_flight) refl)
  ]

  module _ (late : ℕ) (base : ℕ → ℕ) (b : Blocks) where
    mark-Counted :
        (t : ℕ) (r : Bool) (s : Pipe o) → Counted o late base s → Counted o late base (mark t r s)
    mark-Counted t r s h = record {
      vm = h.vm;
      power = rw (mark-in_flight t r s) h.power;
      paired = h.paired;
      fresh = λ t' f e k. h.fresh t' f e (rw (mark-fence t t' r s) at k);
    }

    handle-Counted :
        (hw : o.Hw) (e : Bool) (s : Pipe o)
        → Counted o late base s
        → Counted o late base (record s { hw = hw; error = e })
    unfolding task_in_flight
    handle-Counted hw e s h = record {
      vm = h.vm;
      power = h.power;
      paired = h.paired;
      fresh = h.fresh;
    }

    on_time : {s : Pipe o} → Counted o late base s → Counted o (0 + late) base s
    on_time {s} h = subst (λ l. Counted o l base s) (omega arith) h

    pub Step-Counted :
        {n : ℕ} {s s' : Pipe o}
        → Step b n s s'
        → Counted o late base s
        → Counted o (n + late) base s'
    Step-Counted (run a t s idle) h = on_time (run_job-Counted o late base b a t s idle h)
    Step-Counted (handle hw e s) h = on_time (handle-Counted hw e s h)
    Step-Counted (judge t r s) h = on_time (mark-Counted t r s h)
    Step-Counted (end s s' busy e) h =
        let (s1, e1, h1) = pipe_task_done-Counted o late base b s busy h in
        let same : s1 ≡ s' = cc in on_time (subst (Counted o late base) same h1)
    Step-Counted (recover s) h = on_time (recover_work-Counted o late base b s h)
    Step-Counted (time_out s) h = timedout_job-Counted o late base b s h

  module _ (base : ℕ → ℕ) (b : Blocks) where
    -- In every trace of a pipe, whenever its timeouts are handled, if it is so at the start, and
    -- the task's fence is one that was made: the references to an address space
    -- are those that others hold and one more where it is the pipe's; the gets of the device's power
    -- and the late timeouts, those handled while no task was in flight, are together the puts and one
    -- more while a task is in flight, so the power is balanced exactly as long as none was late; and
    -- the pipe has an address space whenever it has a task. A trace gives the pipe a job only
    -- when none is in flight, and the interrupt that ends a job comes while that job is in flight.
    pub Trace-Counted :
        (late : ℕ) {s : Pipe o} {n : ℕ} {s' : Pipe o}
        → Counted o late base s
        → Trace b s n s'
        → Counted o (n + late) base s'
    Trace-Counted late {s' = s'} h here = subst (λ l. Counted o l base s') (omega arith) h
    Trace-Counted late h (next {k} {n} {t} {u} r st) =
        let sum : n + (k + late) ≡ n + k + late = omega arith in
        subst (λ l. Counted o l base u) sum
          (Step-Counted (k + late) base b st (Trace-Counted late h r))

    pub wait_idle_done :
        (P : Pipe o → Type 0) (fake : Bool) (during : ℕ → Pipe o → Pipe o)
        → ((w : ℕ) (s : Pipe o) → P s → P (during w s))
        → (fuel waited : ℕ) (s : Pipe o) → waited ≤ 2009
        → 2010 ≤ waited + fuel * 10
        → P s
        → (s' : Pipe o) × (wait_idle o fuel fake during waited s ≡ done s') × P s'
    unfolding wait_idle
    wait_idle_done P fake during keep zero waited s le ge h = absurd (omega arith)
    wait_idle_done P fake during keep (suc fuel) waited s le ge h =
        elim (Bool-cases (task_in_flight o fake s && ltb waited fini_timeout_ms)) [
          | inl more ↦
              rw (more, wait_idle)
                (wait_idle_done P fake during keep fuel (waited + fini_poll_ms) (during waited s)
                  (ground arith) (omega arith) (keep waited s h))
          | inr over ↦ (s, rw (over, wait_idle), h)
        ]

    drop_task-held :
        (s : Pipe o)
        → ((v : ℕ) → s.vm_refs v ≡ base v + held s.current_vm v)
        → (v : ℕ) → (drop_task o s).vm_refs v ≡ base v
    drop_task-held s h v = vm_put-held o base s.current_vm s v (h v)

    abbrev pub IsEmpty : Pipe o → Type 0
    IsEmpty s = (s.current_task ≡ none) × (s.current_vm ≡ none) × ((v : ℕ) → s.vm_refs v ≡ base v)

    teardown-IsEmpty :
        (late : ℕ) (fake : Bool) (s : Pipe o) → Counted o late base s → IsEmpty (teardown o fake s)
    unfolding teardown force
    teardown-IsEmpty late fake s h = elim (Option-cases s.current_task) [
      | inl e ↦ rw (e, teardown) (e, gone e, λ v. ground (arith, h.vm v, gone e))
      | inr (t, e) ↦ elim (Bool-cases (task_in_flight o fake s)) [
        | inr q ↦ rw (e, teardown) (rw q (refl, refl, drop_task-held s h.vm))
        | inl q ↦ elim (Option-cases (s.tasks t).fence) [
          | inl n ↦
              rw (e, teardown) (rw q (rw (n, force) (refl, refl, drop_task-held (erred s) h.vm)))
          | inr (f, n) ↦
              rw (e, teardown)
                (rw q
                  (rw (n, force) (refl, refl, drop_task-held (fence_signal o f (erred s)) h.vm)))
        ]
      ]
    ]
      where
        gone : s.current_task ≡ none → s.current_vm ≡ none
        gone e = ground (arith, h.paired)

        erred : Pipe o → Pipe o
        erred s = record s { error = true; hw = o.task_error s.hw }

    -- Teardown of a pipe returns after two hundred sleeps at most, whatever trace the pipe goes through
    -- during each of them, timeouts that are handled late and a task that never ends included: the
    -- pipe then has no task and no address space, and has given back every reference to one. Its
    -- references were counted before, with any number of late timeouts. As in every trace, the pipe gets
    -- a job only when none is in flight, and the interrupt that ends a job comes while it is.
    pub pipe_fini-IsEmpty :
        (late : ℕ) (fake : Bool) (during : ℕ → Pipe o → Pipe o) (s : Pipe o)
        → Counted o late base s
        → ((w : ℕ) (s1 : Pipe o) → (n : ℕ) × Trace b s1 n (during w s1))
        → (s' : Pipe o) × (pipe_fini o fake during s ≡ done s') × IsEmpty s'
    unfolding pipe_fini
    pipe_fini-IsEmpty late fake during s h any =
        let (s1, e, l) =
          wait_idle_done (λ x. (l : ℕ) × Counted o l base x) fake during
            (λ w x p. ((any w x).0 + p.0, Trace-Counted p.0 p.1 (any w x).1)) fini_rounds 0 s
            (omega arith) (omega arith) (late, h) in
        (teardown o fake s1, rw (e, pipe_fini), teardown-IsEmpty l.0 fake s1 l.1)
