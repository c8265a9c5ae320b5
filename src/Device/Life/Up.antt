-- ===== src/Device/Life/Up.antt =====
-- Bring-up and teardown.
use lima_freebsd.Device.Life.Held.{
  SamePipe, SameDevice, Holds, err_out4_same, err_out2_same, err_out3_same, Holds-pipes, Holds-ips,
}
use lima_freebsd.Base.{
  Bool-cases, ℕ, ◌+◌, ◌≡◌, arith, inl, inr, Status, Result-cases, success, Errno, err, ok, refl, [],
  Bool, true, false,
}
use lima_freebsd.Device.Power.{
  clk_disable, regulator_disable, clk_init, regulator_init, clk_stage, stage_full, Power,
}
use lima_freebsd.Device.Power.Laws.{
  SamePower, clk_init_err, clk_disable-clk_init, regulator_init_err,
  regulator_disable-regulator_init,
}
use lima_freebsd.Device.Ips.{init_ips, ip_desc, mali400, mali450, GpuId, ip_num}
use lima_freebsd.Device.Ips.Laws.{Started, init_ips_all, init_ips-Started}
use lima_freebsd.Device.Pipes.{PipeUse, init_pipe, fini_pipe}
use lima_freebsd.Device.Life.{
  Device, init_pipes, err_out5, err_out1, err_out0, device_fini, init_blocks, init_vm, device_init,
  alloc_dlbu, Answers,
}

init_pipe_same :
    (u0 : PipeUse) (sched slab : Status) (u : PipeUse) (e : Errno)
    → (init_pipe sched slab u).0 ≡ err e
    → SamePipe u0 u
    → SamePipe u0 (init_pipe sched slab u).1
unfolding init_pipe
init_pipe_same u0 sched slab u e h s = ground arith

fini_pipe-init_pipe :
    (u0 : PipeUse) (sched slab : Status) (u : PipeUse)
    → (init_pipe sched slab u).0 ≡ success
    → SamePipe u0 u
    → SamePipe u0 (fini_pipe (init_pipe sched slab u).1)
unfolding init_pipe fini_pipe
fini_pipe-init_pipe u0 sched slab u h s = ground arith

-- On an error the device holds what it held, else it does after lima_device_fini.
abbrev pub Post : Device → Status × Device → Type 0
Post d0 (err e, d) = SameDevice d0 d
Post d0 (ok u, d) = SameDevice d0 (device_fini d)

init_pipes-Post :
    (d0 : Device) (a : Answers) (n : ℕ) (d : Device)
    → n ≡ ip_num
    → Holds d0 n d
    → SamePipe d0.gp d.gp
    → SamePipe d0.pp d.pp
    → Post d0 (init_pipes a n d)
unfolding init_pipes device_fini err_out5
init_pipes-Post d0 a n d full h gp pp =
    elim (Result-cases (init_pipe a.gp_sched a.gp_slab d.gp).0) [
      | inr (e, r) ↦
          rw (r, init_pipes)
            (err_out4_same d0 n _
              (Holds-pipes d0 n d (init_pipe a.gp_sched a.gp_slab d.gp).1 d.pp d.wiring
                d.error_tasks h)
              (init_pipe_same d0.gp _ _ d.gp e r gp) pp)
      | inl (u, r) ↦ elim (Result-cases (init_pipe a.pp_sched a.pp_slab d.pp).0) [
        | inr (e, r') ↦
            rw (r, init_pipes)
              (rw (r', init_pipes)
                (err_out4_same d0 n _
                  (Holds-pipes d0 n d _ (init_pipe a.pp_sched a.pp_slab d.pp).1 _ d.error_tasks h)
                  (fini_pipe-init_pipe d0.gp _ _ d.gp r gp)
                  (init_pipe_same d0.pp _ _ d.pp e r' pp)))
        | inl (v, r') ↦
            rw (r, init_pipes)
              (rw (r', init_pipes)
                (err_out4_same d0 ip_num _ (Holds-pipes d0 ip_num d _ _ _ [] (rw full at h))
                  (fini_pipe-init_pipe d0.gp _ _ d.gp r gp)
                  (fini_pipe-init_pipe d0.pp _ _ d.pp r' pp)))
      ]
    ]

init_blocks-Post :
    (d0 : Device) (a : Answers) (d : Device)
    → Holds d0 0 d
    → SamePipe d0.gp d.gp
    → SamePipe d0.pp d.pp
    → Post d0 (init_blocks a d)
unfolding init_blocks ip_desc
init_blocks-Post d0 a d h gp pp = elim (Result-cases a.ioremap) [
  | inr (e, r) ↦ rw (r, init_blocks) (err_out3_same d0 d h gp pp)
  | inl (u, r) ↦
      let ips = init_ips d.id ip_desc a.ips 0 d.ips in
      let st : Started d0.ips ips.1 ips.2 =
        init_ips-Started d.id d0.ips ip_desc a.ips 0 d.ips h.ips in
      elim (Result-cases ips.0) [
        | inr (e, q) ↦
            rw (r, init_blocks)
              (rw (q, init_blocks)
                (err_out4_same d0 ips.1 _ (Holds-ips d0 d ips.1 ips.2 h st) gp pp))
        | inl (v, q) ↦
            rw (r, init_blocks)
              (rw (q, init_blocks)
                (init_pipes-Post d0 a ips.1 _ (init_ips_all d.id ip_desc a.ips 0 d.ips q)
                  (Holds-ips d0 d ips.1 ips.2 h st) gp pp))
      ]
]

abbrev IsReset : Device → Type 0
IsReset d = (d.dlbu ≡ false) × ((j : ℕ) → d.ips.present j ≡ false)

-- The first address space of a device that is powered.
Holds-vm :
    (d0 : Device) (p : Power)
    → SamePower d0.power (clk_disable (regulator_disable p))
    → IsReset d0
    → Holds d0 0 (record d0 { power = p; vm_gets = d0.vm_gets + 1 })
Holds-vm d0 p h (f, absent) = record {
  power = h;
  vm = omega arith;
  dlbu = ground arith;
  ips = record {
    below = λ j lt. absurd (omega arith);
    absent = λ j le. absent j;
    above = λ j le. refl;
    finis = λ j. refl;
    resumes = λ j. refl;
    suspends = λ j. refl;
  };
}

alloc_dlbu-Holds :
    (d0 : Device) (g : GpuId) (alloc : Bool) (d : Device)
    → d.dlbu ≡ false
    → Holds d0 0 d
    → Holds d0 0 (alloc_dlbu g alloc d).1
unfolding alloc_dlbu
alloc_dlbu-Holds d0 mali400 alloc d f h = h
alloc_dlbu-Holds d0 mali450 true d f h = record {
  power = h.power;
  vm = h.vm;
  dlbu = ground (arith, h.dlbu);
  ips = h.ips;
}
alloc_dlbu-Holds d0 mali450 false d f h = record {
  power = h.power;
  vm = h.vm;
  dlbu = ground (arith, h.dlbu);
  ips = h.ips;
}

alloc_dlbu_rest :
    (g : GpuId) (alloc : Bool) (d : Device)
    → d.dlbu ≡ false
    → ((alloc_dlbu g alloc d).1.gp ≡ d.gp)
      × ((alloc_dlbu g alloc d).1.pp ≡ d.pp)
      × ((alloc_dlbu g alloc d).0 ≡ false → (alloc_dlbu g alloc d).1.dlbu ≡ false)
unfolding alloc_dlbu
alloc_dlbu_rest mali400 alloc d f = ground arith
alloc_dlbu_rest mali450 true d f = ground arith
alloc_dlbu_rest mali450 false d f = ground arith

SamePipe-refl : (u v : PipeUse) → v ≡ u → SamePipe u v
SamePipe-refl u v e = ground arith

init_vm-Post :
    (d0 : Device) (a : Answers) (p : Power)
    → SamePower d0.power (clk_disable (regulator_disable p))
    → IsReset d0
    → Post d0 (init_vm a (record d0 { power = p }))
unfolding init_vm err_out1
init_vm-Post d0 a p h reset = elim (Bool-cases a.vm_create) [
  | inr r ↦ rw r (record {
    power = h;
    vm = refl;
    dlbu = refl;
    ips = λ j. refl;
    gp = SamePipe-refl _ _ refl;
    pp = SamePipe-refl _ _ refl;
  })
  | inl r ↦
      let d : Device = record d0 { power = p; vm_gets = d0.vm_gets + 1 } in
      let d' = alloc_dlbu d0.id a.dma_alloc d in
      let rest = alloc_dlbu_rest d0.id a.dma_alloc d reset.0 in
      let held = alloc_dlbu-Holds d0 d0.id a.dma_alloc d reset.0 (Holds-vm d0 p h reset) in
      let gp = SamePipe-refl d0.gp d'.1.gp rest.0 in
      let pp = SamePipe-refl d0.pp d'.1.pp rest.1 in
      elim (Bool-cases d'.0) [
        | inl q ↦ rw r (rw q (init_blocks-Post d0 a d'.1 held gp pp))
        | inr q ↦ rw r (rw q (err_out2_same d0 d'.1 held (rest.2 q) gp pp))
      ]
]

same_power : (d : Device) (p : Power) → SamePower d.power p → SameDevice d (record d { power = p })
same_power d p h = record {
  power = h;
  vm = refl;
  dlbu = refl;
  ips = λ j. refl;
  gp = SamePipe-refl _ _ refl;
  pp = SamePipe-refl _ _ refl;
}

-- lima_device_init of a device that has no DLBU page and no block yet, with the full clock sequence:
-- where it fails, whatever the step, each resource has been given back as often as it was taken on the
-- way (the two clocks, the reset line, the regulator, the empty address space, the DLBU page, every
-- block, the scheduler and the slab of each pipe); where it succeeds, lima_device_fini gives back
-- all that it took.
pub device_init-Post :
    (a : Answers) (d : Device)
    → clk_stage a.power.stage ≡ stage_full
    → d.dlbu ≡ false
    → ((j : ℕ) → d.ips.present j ≡ false)
    → Post d (device_init a d)
unfolding device_init err_out0
device_init-Post a d full f absent = elim (Result-cases (clk_init a.power d.power).0) [
  | inr (e, r) ↦ rw (r, device_init) (same_power d _ (clk_init_err a.power d.power e r))
  | inl (u, r) ↦
      let p = (clk_init a.power d.power).1 in
      let on = clk_disable-clk_init a.power d.power full r in
      elim (Result-cases (regulator_init a.power p).0) [
        | inr (e, q) ↦
            rw (r, device_init)
              (rw (q, device_init) (same_power d _ (regulator_init_err d.power a.power p e q on)))
        | inl (v, q) ↦
            rw (r, device_init)
              (rw (q, device_init)
                (init_vm-Post d a (regulator_init a.power p).1
                  (regulator_disable-regulator_init d.power a.power p q on) (f, absent)))
      ]
]
