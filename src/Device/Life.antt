-- ===== src/Device/Life.antt =====
-- lima_device_init, lima_device_fini, lima_device_resume and lima_device_suspend (lima_device.c), with
-- the labels of their error paths.
pub mod Held
pub mod Up
pub mod Sleep
use lima_freebsd.Base.{
  ℕ, ◌+◌, List, [], ◌∷◌, Bool, true, false, ltb, not, ◌&&◌, ◌||◌, if◌then◌else◌, Errno, enomem,
  ebusy, Result, ok, err, Status, success,
}
use lima_freebsd.Device.Power.{
  Power, clk_enable, clk_disable, clk_init, regulator_enable, regulator_disable, regulator_init,
}
use lima_freebsd.Device.Ips.{
  GpuId, mali400, mali450, IpAnswers, Ips, ip_desc, ip_num, init_ips, fini_ips, resume_ips,
  suspend_ips,
}
use lima_freebsd.Device.Pipes.{Wiring, PipeUse, init_pipe, fini_pipe, wire_pp_pipe}

-- `struct lima_device`; `dlbu` is whether `dlbu_cpu` is set, and the counts are the references to
-- `empty_vm` and the allocations of the DLBU page.
pub record Device : Type 0 where
  pub id : GpuId
  pub power : Power
  pub vm_gets : ℕ
  pub vm_puts : ℕ
  pub dlbu : Bool
  pub dlbu_allocs : ℕ
  pub dlbu_frees : ℕ
  pub ips : Ips
  pub gp : PipeUse
  pub pp : PipeUse
  pub wiring : Wiring
  pub error_tasks : List ℕ

-- What the frameworks and the parts of the driver answer.
pub record Answers : Type 0 where
  pub power : lima_freebsd.Device.Power.Answers
  pub vm_create : Bool
  pub dma_alloc : Bool
  pub ioremap : Status
  pub ips : ℕ → IpAnswers
  pub gp_sched : Status
  pub gp_slab : Status
  pub pp_sched : Status
  pub pp_slab : Status
  pub devfreq : Status

-- The labels, each of which goes on to the one below it.
unfoldable pub err_out0 : Device → Device
err_out0 d = record d { power = clk_disable d.power }

unfoldable pub err_out1 : Device → Device
unfolding err_out0
err_out1 d = err_out0 (record d { power = regulator_disable d.power })

unfoldable pub err_out2 : Device → Device
unfolding err_out1
err_out2 d = err_out1 (record d { vm_puts = d.vm_puts + 1 })

unfoldable pub free_dlbu : Device → Device
free_dlbu d = if d.dlbu then record d { dlbu_frees = d.dlbu_frees + 1 } else d

unfoldable pub err_out3 : Device → Device
unfolding err_out2 free_dlbu
err_out3 d = err_out2 (free_dlbu d)

unfoldable pub err_out4 : ℕ → Device → Device
unfolding err_out3
err_out4 i d = err_out3 (record d { ips = fini_ips i d.ips })

unfoldable pub err_out5 : ℕ → Device → Device
unfolding err_out4
err_out5 i d = err_out4 i (record d { gp = fini_pipe d.gp })

-- The arrays are filled in once the pipe's scheduler is there.
abbrev wired : Status → Wiring → Wiring → Wiring
wired (ok u) new old = new
wired (err e) new old = old

-- From the geometry pipe on. Its arrays are one block each and are left out.
unfoldable pub init_pipes : Answers → ℕ → Device → Status × Device
unfolding err_out5 err_out4
init_pipes a i d =
    let (r, gp) = init_pipe a.gp_sched a.gp_slab d.gp in
    elim r [
      | err e ↦ (err e, err_out4 i (record d { gp = gp }))
      | ok u ↦
          let (r', pp) = init_pipe a.pp_sched a.pp_slab d.pp in
          let d' = record d {
            gp = gp;
            pp = pp;
            wiring = wired a.pp_sched (wire_pp_pipe d.id d.ips.present) d.wiring;
          } in
          elim r' [
            | err e ↦ (err e, err_out5 i d')
            | ok v ↦ (success, record d' { error_tasks = [] })
          ]
    ]

-- From the register window on.
unfoldable pub init_blocks : Answers → Device → Status × Device
unfolding init_pipes
init_blocks a d = elim a.ioremap [
  | err e ↦ (err e, err_out3 d)
  | ok u ↦
      let (r, i, ips) = init_ips d.id ip_desc a.ips 0 d.ips in
      elim r [
        | err e ↦ (err e, err_out4 i (record d { ips = ips }))
        | ok v ↦ init_pipes a i (record d { ips = ips })
      ]
]

-- `if (ldev->id == lima_gpu_mali450)`, with the answer of `dma_alloc_wc`.
unfoldable pub alloc_dlbu : GpuId → Bool → Device → Bool × Device
alloc_dlbu mali400 alloc d = (true, d)
alloc_dlbu mali450 true d = (true, record d { dlbu = true; dlbu_allocs = d.dlbu_allocs + 1 })
alloc_dlbu mali450 false d = (false, record d { dlbu = false })

-- From the empty address space on.
unfoldable pub init_vm : Answers → Device → Status × Device
unfolding init_blocks alloc_dlbu
init_vm a d =
    if not a.vm_create
    then (err enomem, err_out1 d)
    else (let (found, d') = alloc_dlbu d.id a.dma_alloc (record d { vm_gets = d.vm_gets + 1 }) in
        if found then init_blocks a d' else (err enomem, err_out2 d'))

unfoldable pub device_init : Answers → Device → Status × Device
unfolding init_vm
device_init a d =
    let (r, p) = clk_init a.power d.power in
    elim r [
      | err e ↦ (err e, record d { power = p })
      | ok u ↦
          let (r', p') = regulator_init a.power p in
          elim r' [
            | err e ↦ (err e, err_out0 (record d { power = p' }))
            | ok v ↦ init_vm a (record d { power = p' })
          ]
    ]

unfoldable pub device_fini : Device → Device
unfolding err_out3
device_fini d =
    let d' = record d {
      error_tasks = [];
      pp = fini_pipe d.pp;
      gp = fini_pipe d.gp;
      ips = fini_ips ip_num d.ips;
    } in
    err_out3 d'

-- `err_out1` of lima_device_resume, which goes on to `err_out0`.
abbrev pub resume_out1 : ℕ → Power → Ips → Device → Device
resume_out1 i p ips d = record d {
  ips = suspend_ips i ips;
  power = clk_disable (regulator_disable p);
}

unfoldable pub device_resume : Answers → Device → Status × Device
device_resume a d =
    let (r, p) = clk_enable a.power d.power in
    elim r [
      | err e ↦ (err e, record d { power = p })
      | ok u ↦
          let (r', p') = regulator_enable a.power p in
          elim r' [
            | err e ↦ (err e, record d { power = clk_disable p' })
            | ok v ↦
                let (r'', i, ips) = resume_ips ip_num a.ips 0 d.ips in
                elim r'' [
                  | err e ↦ (err e, resume_out1 i p' ips d)
                  | ok w ↦ elim a.devfreq [
                    | err e ↦ (err e, resume_out1 i p' ips d)
                    | ok x ↦ (success, record d { power = p'; ips = ips })
                  ]
                ]
          ]
    ]

-- With the counts of the jobs on the two pipes.
unfoldable pub device_suspend : ℕ → ℕ → Status → Device → Status × Device
device_suspend gp_jobs pp_jobs devfreq d =
    if ltb 0 gp_jobs || ltb 0 pp_jobs then (err ebusy, d) else (elim devfreq [
      | err e ↦ (err e, d)
      | ok u ↦ (
        success,
        record d {
          ips = suspend_ips ip_num d.ips;
          power = clk_disable (regulator_disable d.power);
        },
      )
    ])
