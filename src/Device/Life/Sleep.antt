-- ===== src/Device/Life/Sleep.antt =====
-- Suspend and resume: a resume that fails leaves the device as it was asleep, and a suspend undoes one
-- that succeeds.
use lima_freebsd.Base.{ℕ, ◌+◌, ◌≡◌, arith, refl, Result-cases, inl, inr, ok, err, Status, success}
use lima_freebsd.Device.Power.{
  Power, clk_stage, stage_full, clk_enable, clk_disable, regulator_enable, regulator_disable,
}
use lima_freebsd.Device.Power.Laws.{
  SamePower, clk_enable_err, clk_disable-clk_enable, regulator_enable_err,
  regulator_disable-regulator_enable,
}
use lima_freebsd.Device.Ips.{IpAnswers, Ips, ip_num, resume_ips, suspend_ips}
use lima_freebsd.Device.Ips.Laws.{resume_ips_count, suspend_ips_count, resume_ips_all}
use lima_freebsd.Device.Life.{Device, Answers, resume_out1, device_resume, device_suspend}

-- The clocks, the reset line and the regulator are on as often in both states, and each block has been
-- woken as often, less the times it was put to sleep.
pub record SameSleep (d d' : Device) : Type 0 where
  pub power : SamePower d.power d'.power
  pub ips : (j : ℕ) → d.ips.resumes j + d'.ips.suspends j ≡ d'.ips.resumes j + d.ips.suspends j

-- On an error the device sleeps as it did, else it does after lima_device_suspend.
abbrev pub SleepPost : Device → Status × Device → Type 0
SleepPost d (err e, d') = SameSleep d d'
SleepPost d (ok u, d') =
    ((device_suspend 0 0 success d').0 ≡ success) × SameSleep d (device_suspend 0 0 success d').1

module _ (a : ℕ → IpAnswers) (s : Ips) where
  suspend_ips-resume_ips :
      (j : ℕ)
      → let (r, k, s') = resume_ips ip_num a 0 s in
        s.resumes j + (suspend_ips k s').suspends j ≡ (suspend_ips k s').resumes j + s.suspends j
  suspend_ips-resume_ips j = ground (
    arith,
    resume_ips_count ip_num a 0 s j,
    suspend_ips_count (resume_ips ip_num a 0 s).1 (resume_ips ip_num a 0 s).2 j,
  )

  suspend_ips-resume_ips_all :
      (j : ℕ)
      → (resume_ips ip_num a 0 s).0 ≡ success
      → let s' = suspend_ips ip_num (resume_ips ip_num a 0 s).2 in
        s.resumes j + s'.suspends j ≡ s'.resumes j + s.suspends j
  suspend_ips-resume_ips_all j h = rw (resume_ips_all ip_num a 0 s h) at (suspend_ips-resume_ips j)

resume_out1_same :
    (a : ℕ → IpAnswers) (d : Device) (p : Power)
    → SamePower d.power (clk_disable (regulator_disable p))
    → let (r, k, s') = resume_ips ip_num a 0 d.ips in SameSleep d (resume_out1 k p s' d)
resume_out1_same a d p h = record { power = h; ips = suspend_ips-resume_ips a d.ips }

woken-Post :
    (a : Answers) (d : Device) (p : Power)
    → SamePower d.power (clk_disable (regulator_disable p))
    → (resume_ips ip_num a.ips 0 d.ips).0 ≡ success
    → SleepPost d (success, record d { power = p; ips = (resume_ips ip_num a.ips 0 d.ips).2 })
unfolding device_suspend
woken-Post a d p h r =
    (refl, record { power = h; ips = λ j. suspend_ips-resume_ips_all a.ips d.ips j r })

-- lima_device_resume with the full clock sequence: where a clock, the regulator, a block or devfreq
-- fails, what had been switched on and woken is switched off and put to sleep again; where it
-- succeeds, lima_device_suspend with no job on either pipe succeeds too and undoes it.
pub device_resume-SleepPost :
    (a : Answers) (d : Device)
    → clk_stage a.power.stage ≡ stage_full
    → SleepPost d (device_resume a d)
unfolding device_resume
device_resume-SleepPost a d full = elim (Result-cases (clk_enable a.power d.power).0) [
  | inr (e, r) ↦
      rw (r, device_resume) (record { power = clk_enable_err a.power d.power e r; ips = λ j. refl })
  | inl (u, r) ↦
      let p = (clk_enable a.power d.power).1 in
      let on = clk_disable-clk_enable a.power d.power full r in
      elim (Result-cases (regulator_enable a.power p).0) [
        | inr (e, q) ↦
            rw (r, device_resume)
              (rw (q, device_resume)
                (record { power = regulator_enable_err d.power a.power p e q on; ips = λ j. refl }))
        | inl (v, q) ↦
            let h = regulator_disable-regulator_enable d.power a.power p q on in
            let p' = (regulator_enable a.power p).1 in
            elim (Result-cases (resume_ips ip_num a.ips 0 d.ips).0) [
              | inr (e, i) ↦
                  rw (r, device_resume)
                    (rw (q, device_resume) (rw (i, device_resume) (resume_out1_same a.ips d p' h)))
              | inl (w, i) ↦ elim (Result-cases a.devfreq) [
                | inr (e, x) ↦
                    rw (r, device_resume)
                      (rw (q, device_resume)
                        (rw (i, device_resume)
                          (rw (x, device_resume) (resume_out1_same a.ips d p' h))))
                | inl (y, x) ↦
                    rw (r, device_resume)
                      (rw (q, device_resume)
                        (rw (i, device_resume) (rw (x, device_resume) (woken-Post a d p' h i))))
              ]
            ]
      ]
]
