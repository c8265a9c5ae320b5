-- ===== src/Hw/Pp/Writes.antt =====
-- The register writes of a run leave the counters of the pipe alone.
use lima_freebsd.Hw.Pp.Reg
use lima_freebsd.Base.{
  ℕ, zero, suc, ◌+◌, ◌≡◌, refl, arith, List, [], ◌∷◌, false, Bool-cases, inl, inr, ◌∙◌,
}
use lima_freebsd.Hw.Pp.{
  Pipe, Frame, task_run_bcast, pp_write, wait_one, wait_each, async_wait, write_words, write_frame,
  run_addresses, frame_reg_num, wb_reg_num,
}

-- The counters of the pipe are untouched.
pub record Same (s s' : Pipe) : Type 0 where
  pub task : s'.task ≡ s.task
  pub done : s'.done ≡ s.done
  pub dones : s'.dones ≡ s.dones

Same-trans : {s t u : Pipe} → Same s t → Same t u → Same s u
Same-trans h k = record {
  task = k.task ∙ h.task;
  done = k.done ∙ h.done;
  dones = k.dones ∙ h.dones;
}

Same-refl : (s : Pipe) → Same s s
Same-refl s = record { task = refl; done = refl; dones = refl }

pp_write-Same : (ip reg v : ℕ) (s : Pipe) → Same s (pp_write ip reg v s)
pp_write-Same ip reg v s = record { task = refl; done = refl; dones = refl }

wait_one-Same : (n ip : ℕ) (s : Pipe) → Same s (wait_one n ip s).1
unfolding wait_one
wait_one-Same n ip s = record { task = ground arith; done = ground arith; dones = ground arith }

wait_each-Same : (n : ℕ) (ips : List ℕ) (s : Pipe) → Same s (wait_each n ips s)
unfolding wait_each
wait_each-Same n [] s = Same-refl s
wait_each-Same n (ip ∷ ips) s =
    Same-trans (wait_one-Same n ip s) (wait_each-Same n ips (wait_one n ip s).1)

async_wait-Same : (n ip : ℕ) (ips : List ℕ) (s : Pipe) → Same s (async_wait n ip ips s)
unfolding async_wait
async_wait-Same n ip ips s =
    let h = wait_each-Same n ips s in
    elim (Bool-cases (s.async_reset ip)) [
      | inl e ↦ rw (e, async_wait) (record { task = h.task; done = h.done; dones = h.dones })
      | inr e ↦ rw (e, async_wait) (Same-refl s)
    ]

write_words-Same :
    (n ip reg k : ℕ) (words : ℕ → ℕ) (s : Pipe) → Same s (write_words n ip reg k words s)
unfolding write_words
write_words-Same zero ip reg k words s = Same-refl s
write_words-Same (suc n) ip reg k words s =
    Same-trans (pp_write-Same ip reg (words k) s) (write_words-Same n ip (reg + 4) (k + 1) words _)

write_frame-Same : (ip : ℕ) (frame wb : ℕ → ℕ) (s : Pipe) → Same s (write_frame ip frame wb s)
unfolding write_frame
write_frame-Same ip frame wb s =
    let s1 = write_words frame_reg_num ip Reg.frame 0 frame s in
    let s2 = write_words wb_reg_num ip 0x100 0 wb s1 in
    let s3 = write_words wb_reg_num ip 0x200 12 wb s2 in
    Same-trans (write_words-Same frame_reg_num ip Reg.frame 0 frame s) (
      Same-trans (write_words-Same wb_reg_num ip 0x100 0 wb s1) (
        Same-trans (write_words-Same wb_reg_num ip 0x200 12 wb s2)
          (write_words-Same wb_reg_num ip 0x300 24 wb s3)))

run_addresses-Same :
    (f : Frame) (ips : List ℕ) (i : ℕ) (s : Pipe) → Same s (run_addresses f ips i s)
unfolding run_addresses
run_addresses-Same f [] i s = Same-refl s
run_addresses-Same f (ip ∷ ips) i s = elim (Bool-cases f.use_dlbu) [
  | inl e ↦ rw e (Same-trans (pp_write-Same ip Reg.stack _ s) (run_addresses-Same f ips (i + 1) _))
  | inr e ↦ rw e (
      Same-trans (pp_write-Same ip Reg.stack _ s)
        (Same-trans (pp_write-Same ip Reg.frame _ _) (run_addresses-Same f ips (i + 1) _)))
]

abbrev pub fresh : Frame → Pipe → Pipe
fresh f s = record s { done = λ i. false; task = f.num_pp }

pub task_run_bcast-Same :
    (n va bcast : ℕ) (ips : List ℕ) (f : Frame) (s : Pipe)
    → Same (fresh f s) (task_run_bcast n va bcast ips f s)
unfolding task_run_bcast
task_run_bcast-Same n va bcast ips f s = Same-trans (async_wait-Same n bcast ips (fresh f s)) (
    Same-trans (write_frame-Same bcast _ f.wb _)
      (Same-trans (run_addresses-Same f ips 0 _) (pp_write-Same bcast Reg.ctrl _ _)))
