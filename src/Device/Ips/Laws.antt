-- ===== src/Device/Ips/Laws.antt =====
-- The loops over the IP blocks, block by block.
use lima_freebsd.Base.{
  length, ℕ, zero, suc, ◌+◌, ◌<◌, ◌≤◌, ◌≡◌, arith, List, [], ◌∷◌, false, ltb, leb, ◌&&◌,
  if◌then◌else◌, Errno, Result-cases, inl, inr, err, success,
}
use lima_freebsd.Device.Ips.{
  GpuId, IpDesc, IpAnswers, Ips, init_ip, init_ips, fini_ip, fini_ips, resume_ip, resume_ips,
  suspend_ip, suspend_ips,
}

-- Blocks below `n` are initialised where they are present, the others are neither.
pub record Started (s0 : Ips) (n : ℕ) (s : Ips) : Type 0 where
  pub below : (j : ℕ) → j < n → s.inits j ≡ s0.inits j + (if s.present j then 1 else 0)
  pub absent : (j : ℕ) → n ≤ j → s.present j ≡ false
  pub above : (j : ℕ) → n ≤ j → s.inits j ≡ s0.inits j
  pub finis : (j : ℕ) → s.finis j ≡ s0.finis j
  pub resumes : (j : ℕ) → s.resumes j ≡ s0.resumes j
  pub suspends : (j : ℕ) → s.suspends j ≡ s0.suspends j

module _ (g : GpuId) (s0 : Ips) where
  init_ip-Started :
      (d : IpDesc) (a : IpAnswers) (i : ℕ) (s : Ips)
      → (init_ip g d a i s).0 ≡ success
      → Started s0 i s
      → Started s0 (i + 1) (init_ip g d a i s).1
  unfolding init_ip
  init_ip-Started d a i s h st = record {
    below = λ j lt. ground (arith, st.below j, st.absent j, st.above j);
    absent = λ j le. ground (arith, st.absent j);
    above = λ j le. ground (arith, st.above j);
    finis = λ j. ground (arith, st.finis j);
    resumes = λ j. ground (arith, st.resumes j);
    suspends = λ j. ground (arith, st.suspends j);
  }

  init_ip_err :
      (d : IpDesc) (a : IpAnswers) (i : ℕ) (s : Ips) (e : Errno)
      → (init_ip g d a i s).0 ≡ err e
      → (init_ip g d a i s).1 ≡ s
  unfolding init_ip
  init_ip_err d a i s e h = ground arith

  -- Where the loop stops, the blocks before are started and the others are not.
  pub init_ips-Started :
      (ds : List IpDesc) (a : ℕ → IpAnswers) (i : ℕ) (s : Ips)
      → Started s0 i s
      → Started s0 (init_ips g ds a i s).1 (init_ips g ds a i s).2
  unfolding init_ips
  init_ips-Started [] a i s st = st
  init_ips-Started (d ∷ ds) a i s st = elim (Result-cases (init_ip g d (a i) i s).0) [
    | inl (u, h) ↦
        rw (h, init_ips)
          (init_ips-Started ds a (i + 1) (init_ip g d (a i) i s).1
            (init_ip-Started d (a i) i s h st))
    | inr (e, h) ↦ rw (h, init_ips) (rw (init_ip_err d (a i) i s e h) st)
  ]

pub init_ips_all :
    (g : GpuId) (ds : List IpDesc) (a : ℕ → IpAnswers) (i : ℕ) (s : Ips)
    → (init_ips g ds a i s).0 ≡ success
    → (init_ips g ds a i s).1 ≡ i + length ds
unfolding init_ips
init_ips_all g [] a i s h = omega arith
init_ips_all g (d ∷ ds) a i s h =
    ground (arith, init_ips_all g ds a (i + 1) (init_ip g d (a i) i s).1)

pub fini_ips_count :
    (n : ℕ) (s : Ips) (j : ℕ)
    → ((fini_ips n s).finis j ≡ s.finis j + (if ltb j n && s.present j then 1 else 0))
      × ((fini_ips n s).inits j ≡ s.inits j)
      × ((fini_ips n s).present j ≡ s.present j)
      × ((fini_ips n s).resumes j ≡ s.resumes j)
      × ((fini_ips n s).suspends j ≡ s.suspends j)
unfolding fini_ips fini_ip
fini_ips_count zero s j = ground arith
fini_ips_count (suc n) s j = ground (arith, fini_ips_count n (fini_ip n s) j)

pub suspend_ips_count :
    (n : ℕ) (s : Ips) (j : ℕ)
    → ((suspend_ips n s).suspends j ≡ s.suspends j + (if ltb j n && s.present j then 1 else 0))
      × ((suspend_ips n s).resumes j ≡ s.resumes j)
unfolding suspend_ips suspend_ip
suspend_ips_count zero s j = ground arith
suspend_ips_count (suc n) s j = ground (arith, suspend_ips_count n (suspend_ip n s) j)

-- Where the loop stops, the present blocks from `i` to there have been resumed.
pub resume_ips_count :
    (n : ℕ) (a : ℕ → IpAnswers) (i : ℕ) (s : Ips) (j : ℕ)
    → let (r, k, s') = resume_ips n a i s in
      (s'.resumes j ≡ s.resumes j + (if leb i j && ltb j k && s.present j then 1 else 0))
      × (s'.suspends j ≡ s.suspends j)
      × (s'.present j ≡ s.present j)
      × (i ≤ k)
unfolding resume_ips resume_ip
resume_ips_count zero a i s j = ground arith
resume_ips_count (suc n) a i s j =
    ground (arith, resume_ips_count n a (i + 1) (resume_ip (a i) i s).1 j)

pub resume_ips_all :
    (n : ℕ) (a : ℕ → IpAnswers) (i : ℕ) (s : Ips)
    → (resume_ips n a i s).0 ≡ success
    → (resume_ips n a i s).1 ≡ i + n
unfolding resume_ips
resume_ips_all zero a i s h = omega arith
resume_ips_all (suc n) a i s h = ground (arith, resume_ips_all n a (i + 1) (resume_ip (a i) i s).1)
