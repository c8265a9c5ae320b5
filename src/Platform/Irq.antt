-- ===== src/Platform/Irq.antt =====
-- linux/platform_device.c: the interrupts, the resources and the life of a platform device.
pub mod Laws
pub mod Life
mod Tests
use lima_freebsd.Base.{
  ℕ, zero, suc, ◌+◌, ◌-◌, List, [], ◌∷◌, Option, none, some, Bool, true, false, not, ◌==◌, ltb, leb,
  if◌then◌else◌, update, Errno, enomem, einval, ebusy, enxio, Result, ok, err, Status, success,
}
use lima_freebsd.Platform.{irq_is_token, irq_index}

abbrev pub max_mem : ℕ
max_mem = 8

abbrev pub max_irq : ℕ
max_irq = 32

-- `struct lkpi_platform_irqe`, as far as it decides.
pub record Irqe : Type 0 where
  pub idx : ℕ
  pub devres : Bool

-- `struct platform_device`: `tag i` is `irq_tag[i] != NULL`; the entries of `irq` and `mem` are there
-- below `nirq` and `nmem`. With it: the entries on the device's devres list, latest first, how many that
-- `kzalloc` gave are not freed, and how often handlers were set up and torn down and resources
-- allocated and released.
pub record Pdev : Type 0 where
  pub nmem : ℕ
  pub nirq : ℕ
  pub tag : ℕ → Bool
  pub ent : ℕ → Option Irqe
  pub devres : List Irqe
  pub plain : ℕ
  pub setups : ℕ
  pub teardowns : ℕ
  pub allocs : ℕ
  pub releases : ℕ
  pub published : Bool
  pub dma : Bool
  pub magic : Bool

-- `bus_teardown_intr` where the tag is there.
unfoldable pub drop_tag : ℕ → Pdev → Pdev
drop_tag idx s =
    if s.tag idx then record s { tag = update s.tag idx false; teardowns = s.teardowns + 1 } else s

-- lkpi_platform_irq_teardown.
unfoldable pub irq_teardown : ℕ → Pdev → Pdev
irq_teardown idx s = let s' = drop_tag idx s in record s' { ent = update s'.ent idx none }

-- What follows `bus_setup_intr`.
abbrev pub entered : Irqe → Pdev → Pdev
entered e s = record s {
  tag = update s.tag e.idx true;
  ent = update s.ent e.idx (some e);
  setups = s.setups + 1;
  devres = if e.devres then e ∷ s.devres else s.devres;
  plain = if e.devres then s.plain else s.plain + 1;
}

-- lkpi_platform_request_irq of the device that it found: whether there is a handler and `xdev`, and the
-- answers of the allocation and of `bus_setup_intr`.
unfoldable pub request_irq : Bool → Bool → Bool → Status → ℕ → Pdev → Status × Pdev
request_irq handler xdev alloc setup irq s =
    if not handler
    then (err einval, s)
    else if not (irq_is_token irq)
    then (err enxio, s)
    else if leb s.nirq (irq_index irq)
    then (err enxio, s)
    else if s.tag (irq_index irq)
    then (err ebusy, s)
    else if not alloc
    then (err enomem, s)
    else (elim setup [
      | err e ↦ (err e, s)
      | ok u ↦ (success, entered (record { idx = irq_index irq; devres = xdev }) s)
    ])

-- lkpi_platform_free_irq.
unfoldable pub free_irq : ℕ → Pdev → Pdev
unfolding irq_teardown
free_irq irq s =
    if not (irq_is_token irq)
    then s
    else if leb s.nirq (irq_index irq)
    then s
    else (elim (s.ent (irq_index irq)) [
      | none ↦ s
      | some e ↦
          let s' = irq_teardown e.idx s in
          if e.devres then s' else record s' { plain = s'.plain - 1 }
    ])

-- lkpi_devres_release_free_list, which calls lkpi_platform_devm_irq_release for each entry.
unfoldable pub release_list : List Irqe → Pdev → Pdev
release_list [] s = s
release_list (e ∷ es) s = release_list es (irq_teardown e.idx s)

-- put_device of the last reference.
unfoldable pub put_device : Pdev → Pdev
unfolding release_list
put_device s = record (release_list s.devres s) { devres = [] }

-- A loop of lkpi_platform_bus_attach: the resources from number `i` on, up to the first that is not
-- there; the number that it ends with.
unfoldable pub alloc_while : (ℕ → Bool) → ℕ → ℕ → ℕ
alloc_while found zero i = i
alloc_while found (suc n) i = if found i then alloc_while found n (i + 1) else i

-- The loop at `fail_resources`, and that of the detach.
abbrev pub release_resources : Pdev → Pdev
release_resources s = record s { releases = s.releases + (s.nirq + s.nmem); magic = false }

-- A device that is not set up.
abbrev pub fresh : Pdev
fresh = record {
  nmem = 0;
  nirq = 0;
  tag = λ i. false;
  ent = λ i. none;
  devres = [];
  plain = 0;
  setups = 0;
  teardowns = 0;
  allocs = 0;
  releases = 0;
  published = false;
  dma = false;
  magic = false;
}

abbrev pub resourced : ℕ → ℕ → Pdev
resourced nmem nirq = record fresh { nmem = nmem; nirq = nirq; allocs = nirq + nmem; magic = true }

-- The two loops that allocate.
unfoldable pub with_resources : (ℕ → Bool) → (ℕ → Bool) → Pdev
unfolding alloc_while
with_resources mem irq = resourced (alloc_while mem max_mem 0) (alloc_while irq max_irq 0)

-- The end of lkpi_platform_bus_attach, from the probe on.
unfoldable pub run_probe : (Pdev → Status × Pdev) → Pdev → Status × Pdev
run_probe probe s =
    let (r, s') = probe s in
    elim r [
      | err e ↦
          (err e, release_resources (put_device (record s' { published = false; dma = false })))
      | ok w ↦ (success, s')
    ]

-- lkpi_platform_bus_attach of a driver with a probe, and the answers of `kobject_init_and_add` and
-- of lkpi_platform_dma_init.
unfoldable pub attach :
    (ℕ → Bool) → (ℕ → Bool) → Status → Status → (Pdev → Status × Pdev) → Status × Pdev
unfolding run_probe
attach mem irq kobject dma probe =
    let s = with_resources mem irq in
    elim kobject [
      | err e ↦ (err enomem, release_resources s)
      | ok u ↦ elim dma [
        | err e ↦ (err e, release_resources (put_device s))
        | ok v ↦ run_probe probe (record s { dma = true; published = true })
      ]
    ]

-- The loop of the detach over `n` interrupts from number `i` on.
unfoldable pub drop_tags : ℕ → ℕ → Pdev → Pdev
unfolding drop_tag
drop_tags zero i s = s
drop_tags (suc n) i s = drop_tags n (i + 1) (drop_tag i s)

-- lkpi_platform_bus_detach after the driver's `remove`.
unfoldable pub take_down : Pdev → Pdev
unfolding put_device drop_tags
take_down s =
    let s1 = record s { published = false } in
    let s2 = drop_tags s1.nirq 0 s1 in release_resources (put_device (record s2 { dma = false }))

unfoldable pub detach : (Pdev → Pdev) → Pdev → Pdev
unfolding take_down
detach remove s = if not s.magic then s else take_down (remove s)
