-- ===== src/Shmem/Create.antt =====
-- drm/drm_gem_shmem_helper.c: how an object comes to be, with lima_gem_create_object (lima_gem.c), and
-- how it goes.
pub mod Dumb
pub mod Made
use lima_freebsd.Base.{
  ℕ, zero, suc, ◌+◌, ◌-◌, ◌*◌, ◌/◌, ◌%◌, Option, none, some, Bool, true, false, not, ◌==◌, ◌||◌,
  ltb, if◌then◌else◌, is_some, Errno, enomem, Result, ok, err, Status, success, Run, done, and_then,
}
use lima_freebsd.Base.Int.{pos, u32_mod}
use lima_freebsd.Shmem.Logic.{align_size}
use lima_freebsd.Shmem.Pages.{Memory}
use lima_freebsd.Shmem.Object.{Object, free}

-- How often an object was allocated and freed, and how often drm core set one up
-- (`drm_gem_object_init`, `drm_gem_private_object_init`) and released it (`drm_gem_object_release`).
pub record Ledger : Type 0 where
  pub allocs : ℕ
  pub frees : ℕ
  pub inits : ℕ
  pub releases : ℕ

-- The answers of `kzalloc`, `drm_gem_object_init` and `drm_gem_create_mmap_offset`.
pub record Answers : Type 0 where
  pub kzalloc : Bool
  pub init : Status
  pub mmap_offset : Status

-- lima_gem_create_object, once the object is there.
abbrev pub create_object : ℕ → Object
create_object size = record {
  size = size;
  pages = none;
  pages_use_count = 0;
  vmap_use_count = 0;
  vaddr = none;
  sgt = none;
  madv = pos 0;
  map_wc = true;
  mark_dirty = false;
  mark_accessed = false;
  imported = false;
  exported = false;
  mmap_offset = false;
}

-- `err_free` and `err_release`.
abbrev pub err_free : Ledger → Ledger
err_free l = record l { frees = l.frees + 1 }

abbrev pub err_release : Ledger → Ledger
err_release l = err_free (record l { releases = l.releases + 1 })

-- __drm_gem_shmem_create.
unfoldable pub create : Bool → Answers → ℕ → Ledger → Result Object × Ledger
create private a size l =
    if not a.kzalloc
    then (err enomem, l)
    else let l1 = record l { allocs = l.allocs + 1 } in
      let o = create_object (align_size size) in
      elim (if private then success else a.init) [
        | err e ↦ (err e, err_free l1)
        | ok u ↦
            let l2 = record l1 { inits = l1.inits + 1 } in
            elim a.mmap_offset [
              | err e ↦ (err e, err_release l2)
              | ok v ↦ (ok (record o { map_wc = not private; mmap_offset = true }), l2)
            ]
      ]

-- drm_gem_shmem_free to its end.
unfoldable pub free_object : Object → Memory → Ledger → Run (Memory × Ledger)
free_object o m l = and_then (free o m) λ q. done (q.1, err_release l)

-- drm_gem_object_put where there are `refs` references.
unfoldable pub object_put : ℕ → Object → Memory → Ledger → Run (Memory × Ledger)
unfolding free_object
object_put refs o m l = if refs == 1 then free_object o m l else done (m, l)

-- The end of a creation: the answer of `drm_gem_handle_create`, which takes a reference, or an error
-- before; and the put of the reference of the allocation.
unfoldable pub hand_out : Status → Object → Memory → Ledger → Run (Result Object × Memory × Ledger)
unfolding object_put
hand_out (ok u) o m l = and_then (object_put 2 o m l) λ q. done (ok o, q.0, q.1)
hand_out (err e) o m l = and_then (object_put 1 o m l) λ q. done (err e, q.0, q.1)

-- drm_gem_shmem_create_with_handle.
unfoldable pub create_with_handle :
    Answers → Status → ℕ → Memory → Ledger → Run (Result Object × Memory × Ledger)
unfolding hand_out create
create_with_handle a handle size m l =
    let (r, l1) = create false a size l in
    elim r [ err e ↦ done (err e, m, l1) | ok o ↦ hand_out handle o m l1 ]

-- drm_gem_shmem_prime_import_sg_table, of the size of the dma-buf.
unfoldable pub prime_import_sg_table : Answers → ℕ → ℕ → Ledger → Result Object × Ledger
unfolding create
prime_import_sg_table a size sgt l =
    let (r, l1) = create true a (align_size size) l in
    elim r [ err e ↦ (err e, l1) | ok o ↦ (ok (record o { sgt = some sgt }), l1) ]

-- The pitch and the size that drm_gem_shmem_dumb_create settles on; `pitch` and `size` are those that
-- it was given.
unfoldable pub dumb_sizes : ℕ → ℕ → ℕ → ℕ → ℕ → ℕ × ℕ
dumb_sizes width height bpp pitch size =
    let min_pitch = (width * bpp % u32_mod + 7) % u32_mod / 8 in
    if (pitch == 0) || (size == 0)
    then (min_pitch, align_size (min_pitch * height % u32_mod))
    else (let p = if ltb pitch min_pitch then min_pitch else pitch in
        (p, if ltb size (p * height) then align_size (p * height % u32_mod) else size))

unfoldable pub dumb_create :
    Answers → Status → ℕ → ℕ → ℕ → ℕ → ℕ → Memory → Ledger → Run (Result Object × Memory × Ledger)
unfolding create_with_handle dumb_sizes
dumb_create a handle width height bpp pitch size m l =
    create_with_handle a handle (dumb_sizes width height bpp pitch size).1 m l
