-- ===== src/Shmem/Object.antt =====
-- drm/drm_gem_shmem_helper.c: the object, and the functions that count its pages and its mappings.
-- The reservation lock is not modelled: each function holds it throughout. What the kernel answers
-- is an argument of the call that asks.
pub mod Counts
pub mod Machine
use lima_freebsd.Base.{
  ℕ, zero, suc, ◌+◌, ◌-◌, ◌*◌, ◌/◌, ◌%◌, Option, none, some, List, [], ◌∷◌, get_elem?, Bool, true,
  false, not, ◌||◌, ◌&&◌, ltb, ◌==◌, if◌then◌else◌, is_some, Errno, enomem, einval, eio, Result, ok,
  err, Status, success, Run, done, fault, and_then,
}
use lima_freebsd.Base.Int.{ℤ, pos, negsuc, is_negative}
use lima_freebsd.Shmem.Logic.{
  npages, uint_mod, align_size, Unref, underflow, release, keep, ref_first, unref, fault_index,
  purgeable, madvise_apply,
}
use lima_freebsd.Shmem.Pages.{Memory, Kernel, Entries, get_backing, put_backing, set_memattr}

-- `struct drm_gem_shmem_object`, and of its GEM object the size, whether it is imported or exported,
-- and whether it has an mmap offset. `sgt` and `vaddr` are addresses; `none` is NULL.
pub record Object : Type 0 where
  pub size : ℕ
  pub pages : Option Entries
  pub pages_use_count : ℕ
  pub vmap_use_count : ℕ
  pub vaddr : Option ℕ
  pub sgt : Option ℕ
  pub madv : ℤ
  pub map_wc : Bool
  pub mark_dirty : Bool
  pub mark_accessed : Bool
  pub imported : Bool
  pub exported : Bool
  pub mmap_offset : Bool

unfoldable pub get_pages : Kernel → Object → Memory → Status × Object × Memory
unfolding ref_first
get_pages k o s =
    let (first, n) = ref_first o.pages_use_count in
    if not first
    then (success, record o { pages_use_count = n }, s)
    else (let (r, s') = get_backing k o.size s in
        elim r [
          | err e ↦ (err e, record o { pages_use_count = 0 }, s')
          | ok es ↦ (
            success,
            record o { pages_use_count = n; pages = some es },
            if o.map_wc then set_memattr true es s' else s',
          )
        ])

-- A release with no array follows the NULL pointer.
unfoldable pub release_pages : Object → ℕ → Memory → Run (Object × Memory)
release_pages o n s = elim o.pages [
  | none ↦ fault
  | some es ↦
      let s' = if o.map_wc then set_memattr false es s else s in
      done (
        record o { pages_use_count = n; pages = none },
        put_backing o.size es o.mark_dirty o.mark_accessed s',
      )
]

-- In an underflow, which warns, and while references remain, only the count changes.
unfoldable pub put_pages : Object → Memory → Run (Object × Memory)
unfolding unref
put_pages o s =
    let (state, n) = unref o.pages_use_count in
    elim state [
      | underflow ↦ done (o, s)
      | keep ↦ done (record o { pages_use_count = n }, s)
      | release ↦ release_pages o n s
    ]

-- `lock` is the answer of `dma_resv_lock_interruptible`.
unfoldable pub pin : Status → Kernel → Object → Memory → Status × Object × Memory
pin (err e) k o s = (err e, o, s)
pin (ok u) k o s = get_pages k o s

unfoldable pub unpin : Object → Memory → Run (Object × Memory)
unpin o s = put_pages o s

-- An imported object's mapping is the exporter's: `import_vmap` is the answer of `dma_buf_vmap`, with
-- the mapping and its `is_iomem`.
unfoldable pub vmap_imported : Result (ℕ × Bool) → Object → Result (Option ℕ) × Object
vmap_imported (ok (map, is_iomem)) o = if is_iomem then (err eio, o) else (ok (some map), o)
vmap_imported (err e) o = (err e, record o { vmap_use_count = 0 })

-- The first mapping of a native object, whose count has been taken. `mapped` is the answer of `vmap`;
-- the result is what `iosys_map_set_vaddr` is given.
unfoldable pub vmap_first :
    Kernel → Option ℕ → Object → Memory → Run (Result (Option ℕ) × Object × Memory)
vmap_first k mapped o s =
    let (r, o', s') = get_pages k o s in
    elim r [
      | err e ↦ done (err e, record o' { vmap_use_count = 0 }, s')
      | ok u ↦ elim mapped [
        | none ↦
            and_then (put_pages (record o' { vaddr = none }) s')
              λ p. done (err enomem, record p.0 { vmap_use_count = 0 }, p.1)
        | some a ↦ done (ok (some a), record o' { vaddr = some a }, s')
      ]
    ]

unfoldable pub vmap_native :
    Kernel → Option ℕ → Object → Memory → Run (Result (Option ℕ) × Object × Memory)
unfolding ref_first
vmap_native k mapped o s =
    let (first, n) = ref_first o.vmap_use_count in
    if not first
    then done (ok o.vaddr, record o { vmap_use_count = n }, s)
    else vmap_first k mapped (record o { vmap_use_count = n }) s

unfoldable pub vmap :
    Kernel
    → Result (ℕ × Bool)
    → Option ℕ
    → Object
    → Memory
    → Run (Result (Option ℕ) × Object × Memory)
unfolding vmap_imported
vmap k import_vmap mapped o s =
    if o.imported
    then (let (r, o') = vmap_imported import_vmap o in done (r, o', s))
    else vmap_native k mapped o s

-- What drm_gem_shmem_vunmap does with the answer of `drm_gem_shmem_unref`.
unfoldable pub drop_mapping : Unref × ℕ → Object → Memory → Run (Object × Memory)
drop_mapping (underflow, n) o s = done (o, s)
drop_mapping (keep, n) o s = done (record o { vmap_use_count = n }, s)
drop_mapping (release, n) o s =
    and_then (put_pages (record o { vmap_use_count = n }) s)
      λ r. done (record r.0 { vaddr = none }, r.1)

unfoldable pub vunmap : Object → Memory → Run (Object × Memory)
vunmap o s =
    if o.imported
    then done (record o { vaddr = none }, s)
    else drop_mapping (unref o.vmap_use_count) o s

unfoldable pub madvise : ℤ → Object → Bool × Object
unfolding madvise_apply
madvise madv o =
    let (usable, madv') = madvise_apply o.madv madv in (usable, record o { madv = madv' })

unfoldable pub is_purgeable : Object → Bool
is_purgeable o = purgeable o.madv o.vmap_use_count (is_some o.sgt) o.exported o.imported

-- The scatter table is unmapped and freed first, which follows `sgt`, and then drm_gem_shmem_zap_ptes
-- walks the array. The entries that the pages had in page tables, and the scatter table's own memory,
-- are not state of the object.
unfoldable pub purge : Object → Memory → Run (Object × Memory)
purge o s =
    if not (is_some o.sgt) || (not (is_some o.pages) && ltb 0 (npages o.size))
    then fault
    else (and_then (put_pages (record o { sgt = none }) s)
        λ r. done (record r.0 { madv = negsuc 0; mmap_offset = false }, r.1))

-- What the fault handler gives to `lkpi_vmf_insert_pfn_prot_locked`; `none` is VM_FAULT_SIGBUS. An
-- entry that is NULL is handed on as such.
unfoldable pub fault_page : ℕ → ℕ → Object → Option (Option ℕ)
fault_page address vm_start o = elim (fault_index address vm_start (npages o.size)) [
  | none ↦ none
  | some i ↦ elim o.pages [
    | none ↦ none
    | some es ↦ if is_negative o.madv then none else get_elem? es i
  ]
]

unfoldable pub vm_open : Object → Object
vm_open o =
    if o.pages_use_count == 0
    then o
    else record o { pages_use_count = (o.pages_use_count + 1) % uint_mod }

unfoldable pub vm_close : Object → Memory → Run (Object × Memory)
vm_close o s = put_pages o s

-- The native branch.
unfoldable pub mmap : Kernel → Object → Memory → Status × Object × Memory
mmap k o s = get_pages k o s

-- The label `err_put_pages`.
unfoldable pub err_put_pages : Errno → Object → Memory → Run (Result ℕ × Object × Memory)
err_put_pages e o s = and_then (put_pages o s) λ p. done (err e, p.0, p.1)

-- The answers of `drm_prime_pages_to_sg` and `dma_map_sgtable`, once the pages are there.
unfoldable pub map_table : Result ℕ → Status → Object → Memory → Run (Result ℕ × Object × Memory)
map_table (err e) mapped o s = err_put_pages e o s
map_table (ok t) (err e) o s = err_put_pages e o s
map_table (ok t) (ok u) o s = done (ok t, record o { sgt = some t }, s)

unfoldable pub get_pages_sgt_locked :
    Kernel → Result ℕ → Status → Object → Memory → Run (Result ℕ × Object × Memory)
get_pages_sgt_locked k pages_to_sg mapped o s = elim o.sgt [
  | some t ↦ done (ok t, o, s)
  | none ↦
      let (r, o', s') = get_pages k o s in
      elim r [ err e ↦ done (err e, o', s') | ok u ↦ map_table pages_to_sg mapped o' s' ]
]

unfoldable pub get_pages_sgt :
    Status → Kernel → Result ℕ → Status → Object → Memory → Run (Result ℕ × Object × Memory)
get_pages_sgt (err e) k pages_to_sg mapped o s = done (err e, o, s)
get_pages_sgt (ok u) k pages_to_sg mapped o s = get_pages_sgt_locked k pages_to_sg mapped o s

-- What drm_gem_shmem_free does to the pages of the object, which it frees; the count that its second
-- warning looks at.
unfoldable pub free : Object → Memory → Run (ℕ × Memory)
free o s =
    if o.imported
    then done (0, s)
    else if is_some o.pages
    then (and_then (put_pages o s) λ r. done (r.0.pages_use_count, r.1))
    else done (o.pages_use_count, s)
