-- ===== src/Device/Ips.antt =====
-- lima_device.c: the table of the IP blocks and their initialisation, teardown, suspend and resume, one
-- after the other. A block is its number in `enum lima_ip_id`.
pub mod Laws
use lima_freebsd.Base.{
  ℕ, zero, suc, ◌+◌, List, [], ◌∷◌, Option, none, some, Bool, true, false, if◌then◌else◌, update,
  Errno, Result, ok, err, Status, success,
}

pub data GpuId : Type 0 where
  mali400 mali450 : GpuId

-- A row of `lima_ip_desc`; an offset of -1 is `none`.
pub record IpDesc : Type 0 where
  pub irq_name : Bool
  pub must_have : GpuId → Bool
  pub offset : GpuId → Option ℕ

abbrev select {ℓ} : {A : Type ℓ} → A → A → GpuId → A
select x y mali400 = x
select x y mali450 = y

abbrev row : Bool → Bool → Bool → Option ℕ → Option ℕ → IpDesc
row irq m0 m1 off0 off1 = record {
  irq_name = irq;
  must_have = select m0 m1;
  offset = select off0 off1;
}

-- On both devices, and needed on both.
abbrev needed : ℕ → IpDesc
needed off = row true true true (some off) (some off)

abbrev spare : ℕ → ℕ → IpDesc
spare off0 off1 = row true false false (some off0) (some off1)

-- On the Mali-450 alone.
abbrev spare450 : ℕ → IpDesc
spare450 off = row true false false none (some off)

-- `lima_ip_desc` in the order of `enum lima_ip_id`: pmu, gpmmu, ppmmu0 to ppmmu7, gp, pp0 to pp7,
-- l2_cache0 to l2_cache2, dlbu, bcast, pp_bcast, ppmmu_bcast.
unfoldable pub ip_desc : List IpDesc
ip_desc =
    spare 0x02000 0x02000
    ∷ needed 0x03000
    ∷ needed 0x04000
    ∷ spare 0x05000 0x05000
    ∷ spare 0x06000 0x06000
    ∷ spare 0x07000 0x07000
    ∷ spare450 0x1C000
    ∷ spare450 0x1D000
    ∷ spare450 0x1E000
    ∷ spare450 0x1F000
    ∷ needed 0x00000
    ∷ needed 0x08000
    ∷ spare 0x0A000 0x0A000
    ∷ spare 0x0C000 0x0C000
    ∷ spare 0x0E000 0x0E000
    ∷ spare450 0x28000
    ∷ spare450 0x2A000
    ∷ spare450 0x2C000
    ∷ spare450 0x2E000
    ∷ row false true true (some 0x01000) (some 0x10000)
    ∷ row false false true none (some 0x01000)
    ∷ row false false false none (some 0x11000)
    ∷ row false false true none (some 0x14000)
    ∷ row false false true none (some 0x13000)
    ∷ row true false true none (some 0x16000)
    ∷ row false false true none (some 0x15000)
    ∷ []

abbrev pub ip_num : ℕ
ip_num = 26

-- What the interrupt lookup of a block, its `init` and its `resume` answer.
pub record IpAnswers : Type 0 where
  pub irq : Status
  pub init : Status
  pub resume : Status

-- `present` of each block, and how often its `init`, `fini`, `resume` and `suspend` took place.
pub record Ips : Type 0 where
  pub present : ℕ → Bool
  pub inits : ℕ → ℕ
  pub finis : ℕ → ℕ
  pub resumes : ℕ → ℕ
  pub suspends : ℕ → ℕ

abbrev pub ip_found : ℕ → Ips → Ips
ip_found i s = record s {
  present = update s.present i true;
  inits = update s.inits i (s.inits i + 1);
}

-- `must ? err : 0`.
abbrev pub ip_failed : Bool → Errno → Status
ip_failed must e = if must then err e else success

unfoldable pub init_ip : GpuId → IpDesc → IpAnswers → ℕ → Ips → Status × Ips
init_ip g d a i s = elim (d.offset g) [
  | none ↦ (success, s)
  | some off ↦ elim (if d.irq_name then a.irq else success) [
    | err e ↦ (ip_failed (d.must_have g) e, s)
    | ok u ↦ elim a.init [
      | err e ↦ (ip_failed (d.must_have g) e, s)
      | ok v ↦ (success, ip_found i s)
    ]
  ]
]

-- The loop of lima_device_init, from the block `i` on; the number is `i` where it stops.
unfoldable pub init_ips : GpuId → List IpDesc → (ℕ → IpAnswers) → ℕ → Ips → Status × ℕ × Ips
init_ips g [] a i s = (success, i, s)
init_ips g (d ∷ ds) a i s =
    let (r, s') = init_ip g d (a i) i s in
    elim r [ err e ↦ (err e, i, s') | ok u ↦ init_ips g ds a (i + 1) s' ]

unfoldable pub fini_ip : ℕ → Ips → Ips
fini_ip i s = if s.present i then record s { finis = update s.finis i (s.finis i + 1) } else s

-- `while (--i >= 0) lima_fini_ip(ldev, i);`
unfoldable pub fini_ips : ℕ → Ips → Ips
fini_ips zero s = s
fini_ips (suc i) s = fini_ips i (fini_ip i s)

unfoldable pub resume_ip : IpAnswers → ℕ → Ips → Status × Ips
resume_ip a i s =
    if s.present i
    then (elim a.resume [
      | err e ↦ (err e, s)
      | ok u ↦ (success, record s { resumes = update s.resumes i (s.resumes i + 1) })
    ])
    else (success, s)

-- The loop of lima_device_resume, with the rounds left.
unfoldable pub resume_ips : ℕ → (ℕ → IpAnswers) → ℕ → Ips → Status × ℕ × Ips
resume_ips zero a i s = (success, i, s)
resume_ips (suc n) a i s =
    let (r, s') = resume_ip (a i) i s in
    elim r [ err e ↦ (err e, i, s') | ok u ↦ resume_ips n a (i + 1) s' ]

unfoldable pub suspend_ip : ℕ → Ips → Ips
suspend_ip i s =
    if s.present i then record s { suspends = update s.suspends i (s.suspends i + 1) } else s

unfoldable pub suspend_ips : ℕ → Ips → Ips
suspend_ips zero s = s
suspend_ips (suc i) s = suspend_ips i (suspend_ip i s)
