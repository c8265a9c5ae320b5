-- ===== src/Hw/Pp/Once.antt =====
-- A frame that is broadcast ends once: lima_pp_bcast_irq_handler counts each processor once.
use lima_freebsd.Hw.Pp.Writes.{task_run_bcast-Same}
use lima_freebsd.Hw.Pp.Reg
use lima_freebsd.Hw.{has_bit}
use lima_freebsd.Base.{
  ℕ, zero, suc, ◌+◌, ◌-◌, ◌%◌, ◌<◌, ◌≤◌, ◌≡◌, refl, arith, List, [], ◌∷◌, Bool, true, false, ◌==◌,
  update, length, Bool-cases, inl, inr, if◌then◌else◌, some, ◌⊎◌, ap, ◌∙◌, update_self, update_ne,
}
use lima_freebsd.Hw.Pp.{
  Pipe, handle_irq, dec_and_test, bcast_round, bcast_rounds, bcast_irq_handler, Frame,
  task_run_bcast, pp_read,
}

-- How many of the `n` processors from number `i` on are not done.
pub pending : ℕ → ℕ → (ℕ → Bool) → ℕ
pending zero i d = 0
pending (suc n) i d = (if d i then 0 else 1) + pending n (i + 1) d

pending_below : (n i j : ℕ) (d : ℕ → Bool) → j < i → pending n i (update d j true) ≡ pending n i d
unfolding pending
pending_below zero i j d h = refl
pending_below (suc n) i j d h = ground (arith, pending_below n (i + 1) j d)

-- One more call of lima_sched_pipe_task_done where the last processor is done just now.
abbrev pub ended : ℕ → ℕ → ℕ
ended before after = if before == 0 then 0 else if after == 0 then 1 else 0

handle_irq_rest :
    (ip state : ℕ) (s : Pipe)
    → ((handle_irq ip state s).task ≡ s.task)
      × ((handle_irq ip state s).dones ≡ s.dones)
      × ((handle_irq ip state s).done ≡ s.done)
unfolding handle_irq
handle_irq_rest ip state s = ground arith

-- A round leaves the processor done, or not done and with nothing changed.
bcast_round-cases :
    (i ip : ℕ) (s : Pipe)
    → let s' = (bcast_round i ip s).1 in
      ((s'.done ≡ s.done) × (s'.task ≡ s.task) × (s'.dones ≡ s.dones))
      ⊎ ((s.done i ≡ false)
          × (s'.done ≡ update s.done i true)
          × (s'.task ≡ (s.task + 4294967296 - 1) % 4294967296)
          × (s'.dones ≡ (if s'.task == 0 then s.dones + 1 else s.dones)))
unfolding bcast_round dec_and_test
bcast_round-cases i ip s =
    let s1 = (pp_read ip Reg.status s).1 in
    let read2 = pp_read ip Reg.int_status s1 in
    let k = handle_irq_rest ip read2.0 read2.1 in
    elim (Bool-cases (s.done i)) [
      | inl e ↦ inl (ground arith)
      | inr e ↦ elim (Bool-cases (read2.0 == 0)) [
        | inr z ↦ inr (e, ground (arith, k), ground (arith, k), ground (arith, k))
        | inl z ↦ elim (Bool-cases (has_bit (pp_read ip Reg.status s).0 1)) [
          | inl a ↦ inl (ground arith)
          | inr a ↦ inr (e, ground arith, ground arith, ground arith)
        ]
      ]
    ]

pending-le : (n i : ℕ) (d : ℕ → Bool) → pending n i d ≤ n
unfolding pending
pending-le zero i d = omega arith
pending-le (suc n) i d = ground (arith, pending-le n (i + 1) d)

-- `p` processors are not done besides those of the loop.
record Counted (p n i : ℕ) (s s' : Pipe) : Type 0 where
  task : s'.task ≡ p + pending n i s'.done
  fewer : pending n i s'.done ≤ pending n i s.done
  dones : s'.dones ≡ s.dones + ended s.task s'.task
  below : (j : ℕ) → j < i → s'.done j ≡ s.done j

bcast_rounds-Counted :
    (ips : List ℕ) (i p : ℕ) (s : Pipe)
    → s.task ≡ p + pending (length ips) i s.done
    → p + length ips < 4294967296
    → Counted p (length ips) i s (bcast_rounds ips i s).1
unfolding bcast_rounds pending
bcast_rounds-Counted [] i p s t small = record {
  task = t;
  fewer = omega arith;
  dones = ground arith;
  below = λ j lt. refl;
}
bcast_rounds-Counted (ip ∷ ips) i p s t small =
    let s1 = (bcast_round i ip s).1 in
    elim (bcast_round-cases i ip s) [
      | inl (d, k, e) ↦
          let q : ℕ = p + (if s.done i then 0 else 1) in
          let rest = ap (pending (length ips) (i + 1)) d in
          let h =
            bcast_rounds-Counted ips (i + 1) q s1 (omega (arith, t, k, rest)) (ground arith) in
          let own = h.below i (omega arith) ∙ ap (λ (x : ℕ → Bool). x i) d in
          record {
            task = ground (arith, h.task, own);
            fewer = ground (arith, h.fewer, own, rest);
            dones = ground (arith, h.dones, e, k);
            below = λ j lt. h.below j (omega arith) ∙ ap (λ (x : ℕ → Bool). x j) d;
          }
      | inr (f, d, k, e) ↦
          let rest =
            ap (pending (length ips) (i + 1)) d
            ∙ pending_below (length ips) (i + 1) i s.done (omega arith) in
          let room = pending-le (length ips) (i + 1) s.done in
          let had : s.task ≡ p + 1 + pending (length ips) (i + 1) s.done = ground (arith, t) in
          let h =
            bcast_rounds-Counted ips (i + 1) p s1 (omega (arith, had, k, rest, room))
              (omega arith) in
          let own =
            h.below i (omega arith) ∙ (ap (λ (x : ℕ → Bool). x i) d ∙ update_self s.done i true) in
          record {
            task = ground (arith, h.task, own);
            fewer = ground (arith, h.fewer, own, rest);
            dones = ground (arith, h.dones, e, k, had, room, h.task, h.fewer, rest);
            below = λ j lt.
                h.below j (omega arith)
                ∙ (ap (λ (x : ℕ → Bool). x j) d ∙ update_ne s.done i true j (omega arith));
          }
    ]

pending-all : (n i : ℕ) → pending n i (λ j. false) ≡ n
unfolding pending
pending-all zero i = refl
pending-all (suc n) i = omega (arith, pending-all n (i + 1))

-- `k` interrupts of the broadcast block.
unfoldable pub bcast_irqs : ℕ → List ℕ → Pipe → Pipe
bcast_irqs zero ips s = s
bcast_irqs (suc k) ips s = bcast_irqs k ips (bcast_irq_handler (some ips) s).1

record Ends (n d : ℕ) (s : Pipe) : Type 0 where
  task : s.task ≡ pending n 0 s.done
  dones : s.dones ≡ d + (if s.task == 0 then 1 else 0)

bcast_irqs-Ends :
    (k : ℕ) (ips : List ℕ) (d : ℕ) (s : Pipe)
    → length ips < 4294967296
    → Ends (length ips) d s
    → Ends (length ips) d (bcast_irqs k ips s)
unfolding bcast_irqs bcast_irq_handler
bcast_irqs-Ends zero ips d s small h = h
bcast_irqs-Ends (suc k) ips d s small h =
    let c = bcast_rounds-Counted ips 0 0 s (omega (arith, h.task)) (omega arith) in
    bcast_irqs-Ends k ips d (bcast_rounds ips 0 s).1 small (record {
      task = omega (arith, c.task);
      dones = ground (arith, c.dones, c.task, c.fewer, h.dones, h.task);
    })

-- A frame that is broadcast to at least one processor, and any number of interrupts after it, whatever
-- the processors' registers read: lima_sched_pipe_task_done has been called once where every
-- processor of the frame is done and never before, and `task` is the number of those that are
-- not done.
pub bcast_irqs-once :
    (n va bcast k : ℕ) (ips : List ℕ) (f : Frame) (s : Pipe)
    → length ips ≡ f.num_pp
    → 0 < f.num_pp
    → f.num_pp < 4294967296
    → let s' = bcast_irqs k ips (task_run_bcast n va bcast ips f s) in
      (s'.task ≡ pending (length ips) 0 s'.done)
      × (s'.dones ≡ s.dones + (if pending (length ips) 0 s'.done == 0 then 1 else 0))
bcast_irqs-once n va bcast k ips f s len pos small =
    let same = task_run_bcast-Same n va bcast ips f s in
    let start : Ends (length ips) s.dones (task_run_bcast n va bcast ips f s) = record {
      task =
          omega
            (arith, same.task, ap (pending (length ips) 0) same.done, pending-all (length ips) 0);
      dones = ground (arith, same.task, same.dones);
    } in
    let h = bcast_irqs-Ends k ips s.dones _ (omega arith) start in
    (h.task, ground (arith, h.dones, h.task))
