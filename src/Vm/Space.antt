-- ===== src/Vm/Space.antt =====
-- lima_vm.c: buffer objects in an address space. The locks are not modelled: each function holds
-- `bo->lock`, and `vm->lock` round the tables, from its first access to its last, so that it is one
-- step. `drm_mm` is the section's parameter; whether `kzalloc` succeeds is an argument.
pub mod Pages
pub mod Undo
pub mod Vas
pub mod Add
pub mod Del
pub mod Round
pub mod MapBo
use lima_freebsd.Base.{
  ℕ, ◌+◌, ◌-◌, ◌*◌, ◌%◌, Option, none, some, List, [], ◌∷◌, ◌++◌, Bool, not, ltb, ◌==◌,
  if◌then◌else◌, drop, enomem, enoent, ok, err, Status, success, Run, done, fault, and_then,
}
use lima_freebsd.Vm.Mm.{Mm}
use lima_freebsd.Vm.Table.{u32_mod, page_size, Tables, Dma, map_page, unmap_range}

-- `struct lima_bo_va`; `vm` names the address space, `start` and `size` are the `drm_mm_node`.
pub record BoVa : Type 0 where
  pub vm : ℕ
  pub ref_count : ℕ
  pub start : ℕ
  pub size : ℕ

-- The part of `struct lima_bo` that these functions use; `sgt` is the list of the bus addresses of
-- the pages of `bo->base.sgt`.
pub record Bo : Type 0 where
  pub va : List BoVa
  pub heap_size : ℕ
  pub size : ℕ
  pub sgt : List ℕ

unfoldable pub bo_find : ℕ → List BoVa → Option BoVa
bo_find vm [] = none
bo_find vm (v ∷ vs) = if v.vm == vm then some v else bo_find vm vs

-- A write through the pointer that `bo_find` returned.
unfoldable pub set_ref_count : ℕ → ℕ → List BoVa → List BoVa
set_ref_count vm n [] = []
set_ref_count vm n (v ∷ vs) =
    if v.vm == vm then record v { ref_count = n } ∷ vs else v ∷ set_ref_count vm n vs

-- `list_del` of the entry that `bo_find` returned.
unfoldable pub del_va : ℕ → List BoVa → List BoVa
del_va vm [] = []
del_va vm (v ∷ vs) = if v.vm == vm then vs else v ∷ del_va vm vs

-- `for_each_sgtable_dma_page` with `lima_vm_map_page`: the status, and `offset` where it stopped.
-- `offset` is an `int` of which only the low 32 bits are used.
unfoldable pub map_pages : Tables → Dma → List ℕ → ℕ → ℕ → Status × ℕ × Tables × Dma
map_pages t d [] base offset = (success, offset, t, d)
map_pages t d (pa ∷ pas) base offset =
    let (r, t', d') = map_page t d pa ((base + offset) % u32_mod) in
    let rest = map_pages t' d' pas base (offset + page_size) in
    elim r [ ok u ↦ rest | err e ↦ (err e, offset, t', d') ]

-- `if (offset) lima_vm_unmap_range(vm, base, base + offset - 1);`
unfoldable pub undo_pages : Tables → ℕ → ℕ → Run Tables
undo_pages t base offset =
    if offset == 0 then done t else unmap_range t (base % u32_mod) ((base + offset - 1) % u32_mod)

module _ (m : Mm) where
  -- `struct lima_vm`; `id` is its address.
  pub record Vm : Type 0 where
    pub id : ℕ
    pub tables : Tables
    pub mm : m.Space

  unfoldable pub bo_add_new : Vm → Bo → Dma → Run (Status × Vm × Bo × Dma)
  bo_add_new vm bo d = elim (m.insert vm.mm bo.size) [
    | err e ↦ done (err e, vm, bo, d)
    | ok (start, mm) ↦
        let (r, offset, t, d') = map_pages vm.tables d bo.sgt start 0 in
        elim r [
          | ok u ↦ done (
            success,
            record vm { tables = t; mm = mm },
            record bo {
              va =
                  bo.va ++ record { vm = vm.id; ref_count = 1; start = start; size = bo.size } ∷ [];
            },
            d',
          )
          | err e ↦
              and_then (undo_pages t start offset)
                λ t'. done (err e, record vm { tables = t'; mm = m.remove mm start }, bo, d')
        ]
  ]

  unfoldable pub bo_add : Bool → Vm → Bo → Dma → Bool → Run (Status × Vm × Bo × Dma)
  bo_add kzalloc vm bo d create = elim (bo_find vm.id bo.va) [
    | some v ↦
        done (
          success,
          vm,
          record bo { va = set_ref_count vm.id ((v.ref_count + 1) % u32_mod) bo.va },
          d,
        )
    | none ↦
        if not create
        then done (err enoent, vm, bo, d)
        else if not kzalloc
        then done (err enomem, vm, bo, d)
        else bo_add_new vm bo d
  ]

  -- `size = bo->heap_size ? bo->heap_size : bo_va->node.size`, a `u32`
  abbrev pub del_size : Bo → BoVa → ℕ
  del_size bo v = (if bo.heap_size == 0 then v.size else bo.heap_size) % u32_mod

  unfoldable pub bo_unmap : Vm → Bo → BoVa → Run (Vm × Bo)
  bo_unmap vm bo v =
      and_then
        (unmap_range vm.tables (v.start % u32_mod)
          ((v.start + del_size bo v + u32_mod - 1) % u32_mod))
        λ t. done (
          record vm { tables = t; mm = m.remove vm.mm v.start },
          record bo { va = del_va vm.id bo.va },
        )

  unfoldable pub bo_del : Vm → Bo → Run (Vm × Bo)
  bo_del vm bo = elim (bo_find vm.id bo.va) [
    | none ↦ fault
    | some v ↦
        let n = (v.ref_count + u32_mod - 1) % u32_mod in
        if ltb 0 n
        then done (vm, record bo { va = set_ref_count vm.id n bo.va })
        else bo_unmap vm bo v
  ]

  unfoldable pub get_va : Vm → Bo → Run ℕ
  get_va vm bo = elim (bo_find vm.id bo.va) [ none ↦ fault | some v ↦ done (v.start % u32_mod) ]

  -- The loop of `lima_vm_map_bo` over the pages `pas`, from the address `base` on.
  unfoldable pub map_at : Vm → List ℕ → Dma → ℕ → Run (Status × Vm × Dma)
  map_at vm pas d base =
      let (r, offset, t, d') = map_pages vm.tables d pas base 0 in
      elim r [
        | ok u ↦ done (success, record vm { tables = t }, d')
        | err e ↦
            and_then (undo_pages t base offset) λ t'. done (err e, record vm { tables = t' }, d')
      ]

  unfoldable pub map_bo : Vm → Bo → Dma → ℕ → Run (Status × Vm × Dma)
  map_bo vm bo d pageoff = elim (bo_find vm.id bo.va) [
    | none ↦ done (err enoent, vm, d)
    | some v ↦ map_at vm (drop pageoff bo.sgt) d ((v.start + pageoff * page_size) % u32_mod)
  ]
