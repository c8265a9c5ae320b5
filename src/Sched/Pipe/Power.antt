-- ===== src/Sched/Pipe/Power.antt =====
-- Where a pipe loses count: a timer that fires late, a teardown that is forced.
use lima_freebsd.Base.{
  ℕ, ◌+◌, ◌≡◌, arith, ap, Bool, true, false, if◌then◌else◌, Bool-cases, Option-cases, inl, inr,
  done,
}
use lima_freebsd.Sched.Pipe.{
  Ops, Blocks, Pipe, drop_task, timedout_job, task_in_flight, teardown, force, pipe_fini,
  fini_rounds, fence_signal, on_mmus,
}
use lima_freebsd.Sched.Pipe.Keep.{Inv, vm_put-Kept}
use lima_freebsd.Sched.Pipe.Teardown.{wait_idle_done}

module _ (o : Ops) where
  module _ (base : ℕ → ℕ) (b : Blocks) where
    -- A timeout that is handled when its job has just completed (nothing in lima_sched_timedout_job asks)
    -- gives the device's power back a second time: there is then one put more than there are gets.
    pub timedout_job-late :
        (s : Pipe o)
        → Inv o base s
        → task_in_flight o false s ≡ false
        → (timedout_job o b s).pm_puts ≡ (timedout_job o b s).pm_gets + 1
    unfolding timedout_job
    timedout_job-late s h idle =
        let s1 = record s { hw = on_mmus o o.mmu_page_fault_resume b (o.task_error s.hw) } in
        let k = vm_put-Kept o s.current_vm s1 in
        omega (
          arith,
          k.gets,
          k.puts,
          h.power,
          ap (λ (x : Bool). let n : ℕ = if x then 1 else 0 in n) idle,
        )

    dropped :
        (s : Pipe o) → (drop_task o s).pm_gets + s.pm_puts ≡ (drop_task o s).pm_puts + s.pm_gets
    dropped s = let k = vm_put-Kept o s.current_vm s in omega (arith, k.gets, k.puts)

    teardown_power :
        (s : Pipe o)
        → (teardown o false s).pm_gets + s.pm_puts ≡ (teardown o false s).pm_puts + s.pm_gets
    unfolding teardown force
    teardown_power s = elim (Option-cases s.current_task) [
      | inl e ↦ rw (e, teardown) (omega arith)
      | inr (t, e) ↦ elim (Bool-cases (task_in_flight o false s)) [
        | inr q ↦ rw (e, teardown) (rw q (dropped s))
        | inl q ↦ elim (Option-cases (s.tasks t).fence) [
          | inl n ↦ rw (e, teardown) (rw q (rw (n, force) (dropped (erred s))))
          | inr (f, n) ↦
              rw (e, teardown) (rw q (rw (n, force) (dropped (fence_signal o f (erred s)))))
        ]
      ]
    ]
      where
        erred : Pipe o → Pipe o
        erred s = record s { error = true; hw = o.task_error s.hw }

    forced :
        (s : Pipe o)
        → task_in_flight o false s ≡ true
        → Inv o base s
        → (teardown o false s).pm_gets ≡ (teardown o false s).pm_puts + 1
    forced s busy h = omega (
      arith,
      teardown_power s,
      h.power,
      ap (λ (x : Bool). let n : ℕ = if x then 1 else 0 in n) busy,
    )

    -- A task that is in flight all through the teardown leaves the device powered for good: the forced
    -- branch of lima_sched_pipe_fini has no lima_pm_idle, and one get is never put.
    pub pipe_fini_forced :
        (during : ℕ → Pipe o → Pipe o) (s : Pipe o)
        → Inv o base s
        → task_in_flight o false s ≡ true
        → ((w : ℕ) (s1 : Pipe o)
            → Inv o base s1 × (task_in_flight o false s1 ≡ true)
            → Inv o base (during w s1) × (task_in_flight o false (during w s1) ≡ true))
        → (s' : Pipe o) × (pipe_fini o false during s ≡ done s') × (s'.pm_gets ≡ s'.pm_puts + 1)
    unfolding pipe_fini
    pipe_fini_forced during s h busy keep =
        let (s1, e, h1) =
          wait_idle_done o base b (λ x. Inv o base x × (task_in_flight o false x ≡ true)) false
            during keep fini_rounds 0 s (omega arith) (omega arith) (h, busy) in
        (teardown o false s1, rw (e, pipe_fini), forced s1 h1.1 h1.0)
