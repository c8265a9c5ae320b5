-- ===== src/Vm/Life.antt =====
-- lima_vm_create, lima_vm_release, and the reference count of an address space.
pub mod Account
pub mod Whole
use lima_freebsd.Base.{
  ℕ, zero, suc, ◌+◌, ◌-◌, ◌%◌, Option, none, some, List, [], ◌∷◌, Bool, true, false, not, ◌==◌,
  if◌then◌else◌, ok, err, success,
}
use lima_freebsd.Vm.Mm.{Mm}
use lima_freebsd.Vm.Table.{
  u32_mod, num_bt, reserve_dlbu, VmPage, Tables, Dma, dma_alloc, dma_free, map_page,
}

-- What lima_vm_create reads of `struct lima_device`; `dlbu` is `dlbu_dma` where `dlbu_cpu` is set.
pub record Device : Type 0 where
  pub va_start : ℕ
  pub va_end : ℕ
  pub dlbu : Option ℕ

-- A directory and no backing table, as `kzalloc` and `__GFP_ZERO` leave them.
abbrev pub empty_tables : Tables
empty_tables = record { pd = λ _. 0; bts = λ _. none }

-- `for (i = 0; i < n; i++) if (vm->bts[i].cpu) dma_free_coherent(...)`
unfoldable pub free_bts : ℕ → ℕ → (ℕ → Option VmPage) → Dma → Dma
free_bts zero i bts d = d
free_bts (suc n) i bts d =
    free_bts n (i + 1) bts (elim (bts i) [ none ↦ d | some bt ↦ dma_free bt.dma d ])

module _ (m : Mm) where
  -- The fields of `struct lima_vm` that live as long as it does: `pd_dma` is `pd.dma`.
  pub record Object : Type 0 where
    pub ref_count : ℕ
    pub pd_dma : ℕ
    pub tables : Tables
    pub mm : m.Space

  new_object : Device → ℕ → Tables → Object
  new_object dev pd t = record {
    ref_count = 1;
    pd_dma = pd;
    tables = t;
    mm = m.init dev.va_start (dev.va_end - dev.va_start);
  }

  unfoldable pub create_with : Device → ℕ → Dma → Option Object × Dma
  unfolding new_object
  create_with dev pd d = elim dev.dlbu [
    | none ↦ (some (new_object dev pd empty_tables), d)
    | some dlbu ↦
        let (r, t, d') = map_page empty_tables d dlbu reserve_dlbu in
        elim r [ ok u ↦ (some (new_object dev pd t), d') | err e ↦ (none, dma_free pd d') ]
  ]

  unfoldable pub create : Bool → Device → Dma → Option Object × Dma
  unfolding dma_alloc
  create kzalloc dev d =
      if not kzalloc
      then (none, d)
      else (let (r, d') = dma_alloc d in
          elim r [ none ↦ (none, d') | some pd ↦ create_with dev pd d' ])

  unfoldable pub release : Object → Dma → Dma
  release o d = dma_free o.pd_dma (free_bts num_bt 0 o.tables.bts d)

  unfoldable pub get : Object → Object
  get o = record o { ref_count = o.ref_count + 1 }

  -- `none` is an object that is gone. `lima_vm_put` takes NULL too.
  unfoldable pub put : Option Object → Dma → Option Object × Dma
  put none d = (none, d)
  put (some o) d =
      if o.ref_count - 1 == 0
      then (none, release o d)
      else (some (record o { ref_count = o.ref_count - 1 }), d)
