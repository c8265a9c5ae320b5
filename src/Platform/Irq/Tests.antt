-- ===== src/Platform/Irq/Tests.antt =====
-- The life of a device with two interrupts, of which the driver requests one and frees it.
use lima_freebsd.Base.{ℕ, ◌≡◌, refl, Bool, true, Status, success, ltb}
use lima_freebsd.Platform.{irq_token}
use lima_freebsd.Platform.Irq.{Pdev, attach, detach, request_irq, free_irq, run_probe}
use lima_freebsd.Platform.Irq.Life.{History, Ended, probed, detach-attach}

abbrev mems : ℕ → Bool
mems i = ltb i 1

abbrev irqs : ℕ → Bool
irqs i = ltb i 2

abbrev probe : Pdev → Status × Pdev
probe s = (success, (request_irq true true true success (irq_token 0 1) s).1)

abbrev remove : Pdev → Pdev
remove s = free_irq (irq_token 0 1) s

abbrev attached : Pdev
attached = (probe (probed mems irqs)).1

attaches : attach mems irqs success success probe ≡ (success, attached)
unfolding attach run_probe
attaches = refl

detach-attach_example : Ended (remove attached).plain (detach remove attached)
detach-attach_example =
    detach-attach mems irqs probe remove attached
      (History.requested true true true success (irq_token 0 1) History.start) attaches
      (History.freed (irq_token 0 1) History.start)
