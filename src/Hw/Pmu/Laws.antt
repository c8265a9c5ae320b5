-- ===== src/Hw/Pmu/Laws.antt =====
-- What lima_pmu.c tells the power unit.
use lima_freebsd.Base.{
  ℕ, zero, suc, ◌+◌, ◌-◌, ◌%◌, ◌≡◌, ◌≢◌, refl, arith, ◌∷◌, Bool, true, ◌==◌, bit_and, etimedout,
  if◌then◌else◌, err, Bool-cases, inl, inr, Status, success, ap, Option-cases, ◌∙◌, Option, none,
  some, ◌⊎◌,
}
use lima_freebsd.Base.Bits.{bit_and_mask}
use lima_freebsd.Base.Int.{u32_mod}
use lima_freebsd.Device.Ips.{mali400, mali450}
use lima_freebsd.Hw.{Hw, write, writel, readl, has_bit}
use lima_freebsd.Hw.L2.{any_present}
use lima_freebsd.Hw.Pmu.{
  power_up, power_down, gp0_mask, l2_mask, pp_mask, pp0_mask, pp13_mask, pp47_mask, int_mask,
  int_clear, int_cmd_mask, sw_delay, cmd_polls, pp0, wait_cmd, send_cmd, pp_masks, get_ip_mask,
  init, fini, power_on, pmu_status, int_rawstat,
}

-- The mask of a Mali-400 has the bit of a pixel processor exactly where that is present, and always
-- those of the geometry processor and of the cache.
pub get_ip_mask-mali400 :
    (present : ℕ → Bool)
    → let mask = get_ip_mask mali400 present in
      (has_bit mask gp0_mask ≡ true)
      × (has_bit mask l2_mask ≡ true)
      × (has_bit mask (pp_mask 0) ≡ present pp0)
      × (has_bit mask (pp_mask 1) ≡ present (pp0 + 1))
      × (has_bit mask (pp_mask 2) ≡ present (pp0 + 2))
      × (has_bit mask (pp_mask 3) ≡ present (pp0 + 3))
unfolding get_ip_mask pp_masks
get_ip_mask-mali400 present =
    (ground arith, ground arith, ground arith, ground arith, ground arith, ground arith)

-- That of a Mali-450 has a bit for the first pixel processor, one for the three that follow and one for
-- the last four, each set exactly where one of its processors is present.
pub get_ip_mask-mali450 :
    (present : ℕ → Bool)
    → let mask = get_ip_mask mali450 present in
      (has_bit mask gp0_mask ≡ true)
      × (has_bit mask pp0_mask ≡ present pp0)
      × (has_bit mask pp13_mask ≡ any_present 3 (pp0 + 1) present)
      × (has_bit mask pp47_mask ≡ any_present 4 (pp0 + 4) present)
unfolding get_ip_mask
get_ip_mask-mali450 present = (ground arith, ground arith, ground arith, ground arith)

-- The number of the first read, of `n` from number `i` on, that says that the command is complete, by
-- what the reads of the register of raw interrupts answer.
unfoldable pub first_done : ℕ → (ℕ → ℕ) → ℕ → Option ℕ
first_done zero answers i = none
first_done (suc n) answers i =
    let rest = first_done n answers (i + 1) in
    if has_bit (answers i) int_cmd_mask then some i else rest

abbrev waited : ℕ → ℕ → Hw → Option ℕ → Status × Hw
waited n ip h none = (err etimedout, record h { reads = h.reads + n })
waited n ip h (some k) =
    (success, record h { reads = k + 1; writes = write ip int_clear int_cmd_mask ∷ h.writes })

waited_one_more :
    (n ip : ℕ) (h : Hw) (o : Option ℕ)
    → waited n ip (record h { reads = h.reads + 1 }) o ≡ waited (suc n) ip h o
waited_one_more n ip h none = ap (λ r. (err etimedout, record h { reads = r })) (omega arith)
waited_one_more n ip h (some k) = refl

pub wait_cmd-first_done :
    (n ip : ℕ) (h : Hw)
    → wait_cmd n ip h ≡ waited n ip h (first_done n (h.answers ip int_rawstat) h.reads)
unfolding wait_cmd first_done writel readl
wait_cmd-first_done zero ip h = ap (λ r. (err etimedout, record h { reads = r })) (omega arith)
wait_cmd-first_done (suc n) ip h =
    elim (Bool-cases (has_bit (h.answers ip int_rawstat h.reads) 1)) [
      | inl e ↦ rw e refl
      | inr e ↦ rw e (
          wait_cmd-first_done n ip (record h { reads = h.reads + 1 })
          ∙ waited_one_more n ip h (first_done n (h.answers ip int_rawstat) (h.reads + 1)))
    ]

send_cmd-first_done :
    (ip reg mask : ℕ) (h : Hw)
    → send_cmd ip reg mask h
      ≡ waited cmd_polls ip
          (writel ip reg mask h)
          (first_done cmd_polls (h.answers ip int_rawstat) h.reads)
unfolding send_cmd writel
send_cmd-first_done ip reg mask h = wait_cmd-first_done cmd_polls ip (writel ip reg mask h)

-- What the initialisation comes to after the status `stat`, from its answer `o` on.
abbrev pub Powered : ℕ → ℕ → Hw → Option ℕ → Status → Hw → Type 0
Powered ip stat h none r h' = (r ≡ err etimedout) × (h'.writes ≡ write ip power_up stat ∷ h.writes)
Powered ip stat h (some k) r h' =
    (r ≡ success)
    × (h'.writes ≡ write ip int_clear int_cmd_mask ∷ write ip power_up stat ∷ h.writes)

abbrev pub quiet : ℕ → Hw → Hw
quiet ip h = writel ip sw_delay 0xffff (writel ip int_mask 0 h)

power_on-Powered :
    (ip stat : ℕ) (h : Hw)
    → let (r, h') = power_on ip stat h in
      Powered ip stat h (first_done cmd_polls (h.answers ip int_rawstat) h.reads) r h'
unfolding power_on writel readl
power_on-Powered ip stat h =
    let sent = send_cmd-first_done ip power_up stat h in
    let at = waited cmd_polls ip (writel ip power_up stat h) in
    elim (Option-cases (first_done cmd_polls (h.answers ip int_rawstat) h.reads)) [
      | inl c ↦ let s = sent ∙ ap at c in rw c (rw (s, power_on) (refl, rw s refl))
      | inr (k, c) ↦ let s = sent ∙ ap at c in rw c (rw (s, power_on) (refl, rw s refl))
    ]

-- The initialisation masks the interrupt of the power unit and sets its delay before anything else.
-- It then asks for exactly the domains that the status says are off, and for nothing where none is.
-- It succeeds where one of the 100 reads of the raw interrupts that follow has the
-- command complete, which it clears once;
-- otherwise it answers that it timed out, after the last of them.
pub init-Powered :
    (ip : ℕ) (h : Hw)
    → let stat = h.answers ip pmu_status h.reads in
      let (r, h') = init ip h in
      ((stat ≡ 0) × (r ≡ success) × (h'.writes ≡ (quiet ip h).writes))
      ⊎ ((stat ≢ 0)
          × Powered ip stat
              (quiet ip h)
              (first_done cmd_polls (h.answers ip int_rawstat) (h.reads + 1))
              r
              h')
unfolding init writel readl
init-Powered ip h =
    let stat = h.answers ip pmu_status h.reads in
    elim (Bool-cases (stat == 0)) [
      | inl e ↦ rw (e, init) (inl (ground arith, refl, refl))
      | inr e ↦
          rw (e, init)
            (inr (
              ground arith,
              power_on-Powered ip stat (record (quiet ip h) { reads = h.reads + 1 }),
            ))
    ]

-- The domains of a teardown are powered down, of those of the mask and no others, and where none of
-- them is on, nothing is written. On a Mali-400 the command is not waited for: one register is read,
-- the status, and the latch of the command is cleared.
abbrev Down : ℕ → ℕ → ℕ → Hw → Hw → Type 0
Down ip stat mask h h' =
    (bit_and stat mask ≡ stat)
    × (h'.writes ≡ write ip int_clear int_cmd_mask ∷ write ip power_down stat ∷ h.writes)

pub fini-Down :
    (present : ℕ → Bool) (ip mask0 : ℕ) (h : Hw)
    → let off = h.answers ip pmu_status h.reads % u32_mod in
      let (mask, h') = fini mali400 present ip mask0 h in
      let stat = bit_and (u32_mod - 1 - off) mask in
      (mask ≡ (if mask0 == 0 then get_ip_mask mali400 present else mask0))
      × (h'.reads ≡ h.reads + 1)
      × (((stat ≡ 0) × (h'.writes ≡ h.writes)) ⊎ ((stat ≢ 0) × Down ip stat mask h h'))
unfolding fini writel readl
fini-Down present ip mask0 h =
    let mask = if mask0 == 0 then get_ip_mask mali400 present else mask0 in
    let on = u32_mod - 1 - h.answers ip pmu_status h.reads % u32_mod in
    elim (Bool-cases (bit_and on mask == 0)) [
      | inl e ↦ rw (e, fini) (refl, refl, inl (ground arith, refl))
      | inr e ↦ rw (e, fini) (refl, refl, inr (ground arith, (bit_and_mask on mask, refl)))
    ]
