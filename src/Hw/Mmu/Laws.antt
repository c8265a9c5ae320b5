-- ===== src/Hw/Mmu/Laws.antt =====
-- What lima_mmu.c leaves in the registers of an MMU.
use lima_freebsd.Base.{
  ℕ, ◌/◌, ◌%◌, ◌<◌, ◌≡◌, ◌≢◌, refl, arith, List, [], ◌∷◌, ◌++◌, Option, some, Bool, true, false,
  not, bit_or, err, ok, Bool-cases, inl, inr, Status, success,
}
use lima_freebsd.Base.Bits.{bit_or_step}
use lima_freebsd.Vm.Table.{Tables, Dma, page_size, u32_mod, flags_cache, map_page, probe_pte}
use lima_freebsd.Vm.Table.Mapping.{entry, entry-map_page}
use lima_freebsd.Hw.{Access, Hw, write, request_irq, writel, readl, has_bit}
use lima_freebsd.Hw.Log.{latest, poll_reg-writes}
use lima_freebsd.Hw.Mmu.{
  mapped, dte_addr, mmu_status, command, enable_paging, enable_stall, disable_stall, zap_cache,
  int_clear, int_mask, int_used, page_fault_active, send_command, diagnose, irq_handler, enable,
  switch_vm, page_fault_resume, int_status,
}

send_command-writes :
    (n ip cmd reg : ℕ) (test : ℕ → Bool) (h : Hw)
    → (send_command n ip cmd reg test h).1.writes ≡ write ip command cmd ∷ h.writes
unfolding send_command writel
send_command-writes n ip cmd reg test h = poll_reg-writes n ip reg test (writel ip command cmd h)

-- The accesses of an `enable`, latest first.
abbrev enabling : ℕ → ℕ → List Access
enabling pd ip =
    write ip command enable_paging ∷ write ip dte_addr pd ∷ write ip int_mask int_used ∷ []

enable-writes : (n pd ip : ℕ) (h : Hw) → (enable n pd ip h).1.writes ≡ enabling pd ip ++ h.writes
unfolding enable writel
enable-writes n pd ip h = send_command-writes n ip enable_paging mmu_status _ _

-- A switch stalls the MMU, sets the directory of the new address space, empties the TLB and ends the
-- stall, in this order and whatever the unit answers to the polls.
pub switch_vm-writes :
    (n pd ip : ℕ) (h : Hw)
    → (switch_vm n pd ip h).writes
      ≡ write ip command disable_stall
        ∷ write ip command zap_cache
        ∷ write ip dte_addr pd
        ∷ write ip command enable_stall
        ∷ h.writes
unfolding switch_vm writel
switch_vm-writes n pd ip h =
    let a = send_command-writes n ip enable_stall mmu_status (λ v. has_bit v 4) h in
    rw (send_command-writes n ip disable_stall mmu_status (λ v. not (has_bit v 4)) _) (rw a refl)

-- An MMU that walks the directory `pd` and reports its faults.
pub record IsReady (pd ip : ℕ) (l : List Access) : Type 0 where
  pub directory : latest ip dte_addr l ≡ some pd
  pub mask : latest ip int_mask l ≡ some int_used
  pub paging : latest ip command l ≡ some enable_paging

enabling-IsReady : (pd ip : ℕ) (l : List Access) → IsReady pd ip (enabling pd ip ++ l)
unfolding latest
enabling-IsReady pd ip l = record {
  directory = ground arith;
  mask = ground arith;
  paging = ground arith;
}

enable-IsReady : (n pd ip : ℕ) (h : Hw) → IsReady pd ip (enable n pd ip h).1.writes
enable-IsReady n pd ip h = rw (enable-writes n pd ip h) (enabling-IsReady pd ip h.writes)

-- The line of the block is requested only while the block is masked and its two causes are cleared.
unfoldable pub IsSilent : ℕ → List Access → Type 0
IsSilent ip [] = Unit
IsSilent ip (write i r v ∷ l) = IsSilent ip l
IsSilent ip (request_irq i ∷ l) =
    (i ≡ ip → (latest ip int_mask l ≡ some 0) × (latest ip int_clear l ≡ some int_used))
    × IsSilent ip l

abbrev pub Posts : ℕ → ℕ → Status → Hw → Type 0
Posts pd ip (ok u) h = IsReady pd ip h.writes × IsSilent ip h.writes
Posts pd ip (err e) h = IsSilent ip h.writes

abbrev pub Resumed : ℕ → ℕ → Bool → Hw → Hw → Type 0
Resumed pd ip true h h' = IsReady pd ip h'.writes
Resumed pd ip false h h' = h'.writes ≡ h.writes

page_fault_resume-Resumed :
    (n pd ip : ℕ) (h : Hw)
    → Resumed pd ip
        (has_bit (h.answers ip mmu_status h.reads) page_fault_active)
        h
        (page_fault_resume n pd ip h)
unfolding page_fault_resume readl
page_fault_resume-Resumed n pd ip h =
    elim (Bool-cases (has_bit (h.answers ip mmu_status h.reads) 2)) [
      | inl e ↦ rw (e, page_fault_resume) (enable-IsReady n pd ip _)
      | inr e ↦ rw (e, page_fault_resume) refl
    ]

-- An interrupt of an MMU whose interrupt status is not 0 masks it. The resume that follows makes it walk the empty address space and
-- unmasks its faults where its status says that a page fault is active, whatever the reset answers; where it
-- does not say so, as after a bus error, the MMU stays masked.
pub page_fault_resume-irq_handler :
    (n pd ip : ℕ) (vm : Option Tables) (h : Hw)
    → h.answers ip int_status h.reads ≢ 0
    → let (handled, why, h1) = irq_handler ip vm h in
      (handled ≡ true)
      × (latest ip int_mask h1.writes ≡ some 0)
      × Resumed pd ip
          (has_bit (h1.answers ip mmu_status h1.reads) page_fault_active)
          h1
          (page_fault_resume n pd ip h1)
unfolding irq_handler latest writel readl
page_fault_resume-irq_handler n pd ip vm h nz =
    let resumed = page_fault_resume-Resumed n pd ip (irq_handler ip vm h).2 in
    (ground arith, ground arith, resumed)

diagnose-mapped : (t : Tables) (v w : ℕ) → entry t v ≡ w → w ≢ 0 → diagnose (some t) v ≡ mapped w
unfolding diagnose probe_pte
diagnose-mapped t v w e nz = ground arith

-- A fault at an address of a page that lima_vm_map_page has mapped is reported as mapped, with the
-- entry that was written: the address space is not what is missing.
pub diagnose-map_page :
    (t : Tables) (d : Dma) (pa va v : ℕ)
    → va < u32_mod
    → v < u32_mod
    → v / page_size ≡ va / page_size
    → (map_page t d pa va).0 ≡ success
    → diagnose (some (map_page t d pa va).1) v ≡ mapped (bit_or pa flags_cache % u32_mod)
diagnose-map_page t d pa va v h k e done =
    diagnose-mapped _ v _ (ground (arith, entry-map_page t d pa va v h k done))
      (omega (arith, bit_or_step pa flags_cache))
