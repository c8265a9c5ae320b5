-- ===== src/Hw/Gp/Recovery.antt =====
-- What the geometry processor is told to do.
use lima_freebsd.Base.{
  ℕ, ◌+◌, ◌-◌, ◌%◌, ◌<◌, ◌≤◌, ◌≡◌, ◌≢◌, ◌↔◌, arith, ◌∷◌, Bool-cases, Result-cases, inl, inr,
  success, Status, ◌==◌,
}
use lima_freebsd.Base.Int.{u32_mod}
use lima_freebsd.Hw.{write, writel}
use lima_freebsd.Hw.Gp.{
  Pipe, Frame, task_validate, start_cmd, task_recover, resume_frame, plbu_alloc_start_addr,
  plbu_alloc_end_addr, int_mask, cmd, irq_mask_used, cmd_update_plbu_alloc,
}

-- Exactly the frames pass whose three ranges are in order and whose vertex or polygon list is not
-- empty; these are the frames that start a unit, so that a validated task ends by an interrupt.
pub task_validate-start_cmd :
    (f : Frame)
    → (task_validate f ≡ success) ↔ (
        (f.vscl_start ≤ f.vscl_end)
        × (f.plbucl_start ≤ f.plbucl_end)
        × (f.alloc_start ≤ f.alloc_end)
        × (start_cmd f ≢ 0))
unfolding task_validate start_cmd
task_validate-start_cmd f = ground arith

-- A heap of the size `size` of which the processor has been given the part below `given`.
pub record Gave (given size : ℕ) (f : Frame) : Type 0 where
  pub below : given ≤ size
  pub fits : f.alloc_start + size < u32_mod
  pub end : f.alloc_end ≡ f.alloc_start + given

resume_frame-Gave :
    (given size size' : ℕ) (f : Frame) (s : Pipe)
    → Gave given size f
    → given < size'
    → f.alloc_start + size' < u32_mod
    → let (f', s') = resume_frame size' f s in
      Gave size' size' f'
      × (given < size')
      × (s'.hw.writes
          ≡ write 10 cmd cmd_update_plbu_alloc
            ∷ write 10 plbu_alloc_end_addr (f.alloc_start + size')
            ∷ write 10 plbu_alloc_start_addr (f.alloc_start + given)
            ∷ write 10 int_mask irq_mask_used
            ∷ s.hw.writes)
unfolding resume_frame writel
resume_frame-Gave given size size' f s g lt low =
    (record { below = omega arith; fits = low; end = omega arith }, lt, ground (arith, g.end))

-- A recovery that succeeds gives the processor the rest of the heap and no more: it starts where the
-- part that it had ended, and is not empty. The growth, where the processor had the whole heap, is
-- one that makes the heap larger and keeps it below 4 GiB.
pub task_recover-Gave :
    (grow : ℕ → Status × ℕ) (given size : ℕ) (f : Frame) (s : Pipe)
    → ((grow size).0 ≡ success → (size < (grow size).1) × (f.alloc_start + (grow size).1 < u32_mod))
    → Gave given size f
    → (task_recover grow size f s).0 ≡ success
    → let (r, size', f', s') = task_recover grow size f s in
      Gave size' size' f'
      × (given < size')
      × (s'.hw.writes
          ≡ write 10 cmd cmd_update_plbu_alloc
            ∷ write 10 plbu_alloc_end_addr (f.alloc_start + size')
            ∷ write 10 plbu_alloc_start_addr (f.alloc_start + given)
            ∷ write 10 int_mask irq_mask_used
            ∷ s.hw.writes)
unfolding task_recover writel
task_recover-Gave grow given size f s larger g =
    elim (Bool-cases ((f.alloc_end + u32_mod - f.alloc_start) % u32_mod == size)) [
      | inl e ↦ elim (Result-cases (grow size).0) [
        | inl (u, r) ↦
            rw (e, task_recover)
              (rw r (λ h.
                resume_frame-Gave given size (grow size).1 f s g (ground (arith, larger r))
                  (ground (arith, larger r))))
        | inr (x, r) ↦ rw (e, task_recover) (rw r (λ h. cc))
      ]
      | inr e ↦
          rw (e, task_recover)
            (λ h. resume_frame-Gave given size size f s g (ground (arith, g.end)) g.fits)
    ]
