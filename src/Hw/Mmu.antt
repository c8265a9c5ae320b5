-- ===== src/Hw/Mmu.antt =====
-- lima_mmu.c: the MMU in front of a processor. `n` is the rounds of a poll, and `pd` the bus address of
-- a page directory.
pub mod Laws
use lima_freebsd.Base.{
  ℕ, zero, suc, ◌+◌, ◌∷◌, Bool, true, false, not, ◌==◌, if◌then◌else◌, Errno, eio, Result, ok, err,
  Status, success, Option, none, some,
}
use lima_freebsd.Vm.Table.{Tables, probe_pte}
use lima_freebsd.Hw.{Hw, write, request_irq, writel, readl, has_bit, poll_reg}

abbrev pub dte_addr : ℕ
dte_addr = 0x00

abbrev pub mmu_status : ℕ
mmu_status = 0x04

abbrev paging_enabled : ℕ
paging_enabled = 1

abbrev pub page_fault_active : ℕ
page_fault_active = 2

abbrev stall_active : ℕ
stall_active = 4

abbrev pub command : ℕ
command = 0x08

abbrev pub enable_paging : ℕ
enable_paging = 0

abbrev pub enable_stall : ℕ
enable_stall = 2

abbrev pub disable_stall : ℕ
disable_stall = 3

abbrev pub zap_cache : ℕ
zap_cache = 4

abbrev pub hard_reset : ℕ
hard_reset = 6

abbrev page_fault_addr : ℕ
page_fault_addr = 0x0c

abbrev pub int_clear : ℕ
int_clear = 0x18

abbrev pub int_mask : ℕ
int_mask = 0x1c

abbrev int_page_fault : ℕ
int_page_fault = 1

-- `LIMA_MMU_INT_PAGE_FAULT | LIMA_MMU_INT_READ_BUS_ERROR`.
abbrev pub int_used : ℕ
int_used = 3

abbrev pub int_status : ℕ
int_status = 0x20

-- lima_mmu_send_command.
unfoldable pub send_command : ℕ → ℕ → ℕ → ℕ → (ℕ → Bool) → Hw → Status × Hw
send_command n ip cmd reg test h = poll_reg n ip reg test (writel ip command cmd h)

-- What the handler prints of a page fault.
pub data Diagnosis : Type 0 where
  no_vm no_table unmapped : Diagnosis
  mapped : ℕ → Diagnosis

unfoldable pub diagnose : Option Tables → ℕ → Diagnosis
diagnose none fault = no_vm
diagnose (some vm) fault =
    let (pte, bt_present) = probe_pte vm fault in
    if not bt_present then no_table else if pte == 0 then unmapped else mapped pte

-- lima_mmu_irq_handler, with `current_vm` of the pipe of the block: what it prints of a page fault, and
-- true where it returns `IRQ_HANDLED` and has called lima_sched_pipe_mmu_error.
unfoldable pub irq_handler : ℕ → Option Tables → Hw → Bool × Option Diagnosis × Hw
unfolding diagnose
irq_handler ip vm h =
    let (status, h1) = readl ip int_status h in
    if status == 0
    then (false, none, h1)
    else if has_bit status int_page_fault
    then (let (fault, h2) = readl ip page_fault_addr h1 in
        (true, some (diagnose vm fault), writel ip int_clear status (writel ip int_mask 0 h2)))
    else (true, none, writel ip int_clear status (writel ip int_mask 0 h1))

-- From the mask on: lima_mmu_hw_init ends as lima_mmu_page_fault_resume does.
unfoldable pub enable : ℕ → ℕ → ℕ → Hw → Status × Hw
unfolding send_command
enable n pd ip h =
    send_command n ip enable_paging mmu_status (λ v. has_bit v paging_enabled)
      (writel ip dte_addr pd (writel ip int_mask int_used h))

unfoldable pub hw_init : ℕ → ℕ → ℕ → Hw → Status × Hw
unfolding send_command enable
hw_init n pd ip h =
    let (r, h') =
      send_command n ip hard_reset dte_addr (λ v. v == 0) (writel ip command hard_reset h) in
    elim r [ err e ↦ (err e, h') | ok u ↦ enable n pd ip h' ]

-- `bcast` is `ip->id == lima_ip_ppmmu_bcast`.
unfoldable pub resume : ℕ → ℕ → Bool → ℕ → Hw → Status × Hw
unfolding hw_init
resume n pd bcast ip h = if bcast then (success, h) else hw_init n pd ip h

-- lima_mmu_init, with the answer of `devm_request_irq`.
unfoldable pub init : ℕ → ℕ → Status → Bool → ℕ → Hw → Status × Hw
unfolding hw_init
init n pd irq bcast ip h =
    if bcast
    then (success, h)
    else (let (v, h1) = readl ip dte_addr (writel ip dte_addr 0xCAFEBABE h) in
        if not (v == 0xCAFEB000)
        then (err eio, h1)
        else (let h2 = writel ip int_clear int_used (writel ip int_mask 0 h1) in
            elim irq [
              | err e ↦ (err e, h2)
              | ok u ↦ hw_init n pd ip (record h2 { writes = request_irq ip ∷ h2.writes })
            ]))

unfoldable pub flush_tlb : ℕ → Hw → Hw
flush_tlb ip h = writel ip command zap_cache h

-- The caller does not see whether the unit stalled.
unfoldable pub switch_vm : ℕ → ℕ → ℕ → Hw → Hw
unfolding send_command
switch_vm n pd ip h =
    let h1 = (send_command n ip enable_stall mmu_status (λ v. has_bit v stall_active) h).1 in
    (send_command n ip disable_stall mmu_status (λ v. not (has_bit v stall_active))
      (writel ip command zap_cache (writel ip dte_addr pd h1))).1

unfoldable pub page_fault_resume : ℕ → ℕ → ℕ → Hw → Hw
unfolding send_command enable
page_fault_resume n pd ip h =
    let (status, h1) = readl ip mmu_status h in
    if has_bit status page_fault_active
    then (enable n pd ip
        (send_command n ip hard_reset dte_addr (λ v. v == 0)
          (writel ip dte_addr 0xCAFEBABE (writel ip int_mask 0 h1))).1).1
    else h1
