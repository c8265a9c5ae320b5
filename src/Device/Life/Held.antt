-- ===== src/Device/Life/Held.antt =====
-- What the device holds during bring-up, and the labels that give it back.
use lima_freebsd.Base.{Bool-cases, ℕ, ◌+◌, ◌≡◌, arith, if◌then◌else◌, inl, inr, List, false}
use lima_freebsd.Device.Power.{clk_disable, regulator_disable}
use lima_freebsd.Device.Power.Laws.{SamePower}
use lima_freebsd.Device.Ips.{Ips, fini_ips}
use lima_freebsd.Device.Ips.Laws.{Started, fini_ips_count}
use lima_freebsd.Device.Pipes.{PipeUse, Wiring}
use lima_freebsd.Device.Life.{Device, err_out4, err_out3, err_out2}

-- A pipe holds its scheduler and its slab as often in both states.
pub record SamePipe (u v : PipeUse) : Type 0 where
  pub sched : u.sched_inits + v.sched_finis ≡ v.sched_inits + u.sched_finis
  pub slab : u.slab_refs + v.slab_unrefs ≡ v.slab_refs + u.slab_unrefs

-- What the device holds is the same in both states.
pub record SameDevice (d d' : Device) : Type 0 where
  pub power : SamePower d.power d'.power
  pub vm : d.vm_gets + d'.vm_puts ≡ d'.vm_gets + d.vm_puts
  pub dlbu : d.dlbu_allocs + d'.dlbu_frees ≡ d'.dlbu_allocs + d.dlbu_frees
  pub ips : (j : ℕ) → d.ips.inits j + d'.ips.finis j ≡ d'.ips.inits j + d.ips.finis j
  pub gp : SamePipe d.gp d'.gp
  pub pp : SamePipe d.pp d'.pp

-- Bring-up has the clocks and the regulator, the address space, the DLBU page where `dlbu` is set, and
-- the blocks below `n`.
pub record Holds (d0 : Device) (n : ℕ) (d : Device) : Type 0 where
  pub power : SamePower d0.power (clk_disable (regulator_disable d.power))
  pub vm : d0.vm_gets + d.vm_puts + 1 ≡ d.vm_gets + d0.vm_puts
  pub dlbu :
      d0.dlbu_allocs + d.dlbu_frees + (if d.dlbu then 1 else 0) ≡ d.dlbu_allocs + d0.dlbu_frees
  pub ips : Started d0.ips n d.ips

fini-Started :
    (s0 : Ips) (n : ℕ) (s : Ips) (j : ℕ)
    → Started s0 n s
    → s0.inits j + (fini_ips n s).finis j ≡ (fini_ips n s).inits j + s0.finis j
fini-Started s0 n s j st =
    ground (arith, fini_ips_count n s j, st.below j, st.absent j, st.above j, st.finis j)

pub err_out4_same :
    (d0 : Device) (n : ℕ) (d : Device)
    → Holds d0 n d
    → SamePipe d0.gp d.gp
    → SamePipe d0.pp d.pp
    → SameDevice d0 (err_out4 n d)
unfolding err_out4
err_out4_same d0 n d h gp pp = elim (Bool-cases d.dlbu) [
  | inl e ↦ record {
    power = rw e h.power;
    vm = ground (arith, h.vm);
    dlbu = ground (arith, h.dlbu);
    ips = λ j. rw e (fini-Started d0.ips n d.ips j h.ips);
    gp = rw e gp;
    pp = rw e pp;
  }
  | inr e ↦ record {
    power = rw e h.power;
    vm = ground (arith, h.vm);
    dlbu = ground (arith, h.dlbu);
    ips = λ j. rw e (fini-Started d0.ips n d.ips j h.ips);
    gp = rw e gp;
    pp = rw e pp;
  }
]

pub err_out2_same :
    (d0 : Device) (d : Device)
    → Holds d0 0 d
    → d.dlbu ≡ false
    → SamePipe d0.gp d.gp
    → SamePipe d0.pp d.pp
    → SameDevice d0 (err_out2 d)
unfolding err_out2
err_out2_same d0 d h f gp pp = record {
  power = h.power;
  vm = ground (arith, h.vm);
  dlbu = ground (arith, h.dlbu);
  ips = λ j. ground (arith, h.ips.above j, h.ips.finis j);
  gp = gp;
  pp = pp;
}

pub err_out3_same :
    (d0 : Device) (d : Device)
    → Holds d0 0 d
    → SamePipe d0.gp d.gp
    → SamePipe d0.pp d.pp
    → SameDevice d0 (err_out3 d)
unfolding err_out4 fini_ips
err_out3_same d0 d h gp pp = err_out4_same d0 0 d h gp pp

-- The pipes and the list of dumps are no part of it.
pub Holds-pipes :
    (d0 : Device) (n : ℕ) (d : Device) (gp pp : PipeUse) (w : Wiring) (es : List ℕ)
    → Holds d0 n d
    → Holds d0 n (record d { gp = gp; pp = pp; wiring = w; error_tasks = es })
Holds-pipes d0 n d gp pp w es h = record { power = h.power; vm = h.vm; dlbu = h.dlbu; ips = h.ips }

pub Holds-ips :
    (d0 : Device) (d : Device) (n : ℕ) (ips : Ips)
    → Holds d0 0 d
    → Started d0.ips n ips
    → Holds d0 n (record d { ips = ips })
Holds-ips d0 d n ips h st = record { power = h.power; vm = h.vm; dlbu = h.dlbu; ips = st }
