-- ===== src/Vm/Tests.antt =====
-- Runs of lima_vm.c at concrete inputs. The range allocator hands out one range after the other and
-- takes back the last; `dma_alloc_coherent` answers 0x40000000, 0x40100000 and so
-- on, sixteen times.
use lima_freebsd.Base.{
  times, ℕ, ◌+◌, ◌*◌, ◌/◌, ◌%◌, ◌^◌, ◌≡◌, refl, [], ◌∷◌, none, some, arith, true, ◌==◌, ltb, ◌||◌,
  not, bit_or, if◌then◌else◌, update, enospc, ok, err, Result, Status, success, done, out_of_fuel,
}
use lima_freebsd.Vm.Mm.{Mm, MmLaws}
use lima_freebsd.Vm.Table.{
  u32_mod, page_size, flags_cache, pde, bte, VmPage, Tables, Dma, probe_pte, map_page, find_bt,
  alloc_bt, dma_alloc, write_pte, unmap_range, install_bt, unmap_from,
}
use lima_freebsd.Vm.Table.Mapping.{entry, entry-map_page}
use lima_freebsd.Vm.Table.Walk.{IsBus, IsWalkable, walk_address, walk-bts, map_page-IsWalkable}
use lima_freebsd.Vm.Table.Unmap.{Backed, Unmapped, unmap_range_done}
use lima_freebsd.Vm.Space.{
  Bo, BoVa, Vm, bo_find, bo_add, bo_add_new, bo_del, map_pages, get_va, map_bo,
}
use lima_freebsd.Vm.Space.Add.{IsClean, SameSpace, AddPost, bo_add_lem}
use lima_freebsd.Vm.Space.Del.{bo_del_top}
use lima_freebsd.Vm.Space.MapBo.{MapPost, map_bo-MapPost}
use lima_freebsd.Vm.Space.Round.{bo_del-bo_add_new}
use lima_freebsd.Vm.Life.{Device, Object, empty_tables, create, release}
use lima_freebsd.Vm.Life.Whole.{map_all, release-map_all-create}

abbrev stack_insert : ℕ → ℕ → Result (ℕ × ℕ)
stack_insert top n =
    if n == 0 || ltb (2 ^ 32) (top + n) || not (top % 4096 == 0)
    then err enospc
    else ok (top, top + n)

abbrev stack : Mm
stack = record { Space = ℕ; init = λ start size. start; insert = stack_insert; remove = λ top a. a }

stack-MmLaws : MmLaws stack
stack-MmLaws = record {
  insert_aligned = λ s s' n a h e. ground arith;
  insert_fits = λ s s' n a e. ground arith;
  insert_positive = λ s s' n a e. ground arith;
  remove_insert = λ s s' n a e. ground arith;
}

abbrev dma : Dma
dma = record {
  bus = λ n. if ltb n 16 then some (0x40000000 + n * 0x100000) else none;
  calls = 0;
  live = [];
}

dma-IsBus : IsBus dma
dma-IsBus n a h = ground arith

entry-map_page_example : entry (map_page empty_tables dma 0x50000000 0x3000).1 0x3abc ≡ (
    if 0x3abc / page_size == 0x3000 / page_size
    then bit_or 0x50000000 flags_cache % u32_mod
    else entry empty_tables 0x3abc)
unfolding map_page find_bt alloc_bt dma_alloc
entry-map_page_example =
    entry-map_page empty_tables dma 0x50000000 0x3000 0x3abc (omega arith) (omega arith) refl

abbrev one_table : Tables
one_table = install_bt empty_tables 0 0x40000000

empty_tables-IsWalkable : IsWalkable empty_tables
empty_tables-IsWalkable = record {
  linked = λ slot j bt h e. cc;
  absent = λ slot j h e. refl;
  placed = λ slot bt e. cc;
}

map_page-IsWalkable_example : IsWalkable (map_page empty_tables dma 0x50000000 0x3000).1
map_page-IsWalkable_example =
    map_page-IsWalkable empty_tables dma 0x50000000 0x3000 dma-IsBus empty_tables-IsWalkable

abbrev table_page : VmPage
table_page = record { cpu = update (λ _. 0) 3 0x500001df; dma = 0x40000000 }

walk-bts_example :
    (walk_address (map_page empty_tables dma 0x50000000 0x3000).1 0x3abc
      ≡ table_page.dma + bte 0x3abc * 4)
    × ((map_page empty_tables dma 0x50000000 0x3000).1.pd (pde 0x3abc) % 2 ≡ 1)
unfolding map_page find_bt alloc_bt dma_alloc write_pte
walk-bts_example =
    walk-bts (map_page empty_tables dma 0x50000000 0x3000).1 0x3abc table_page
      map_page-IsWalkable_example refl

one_table-Backed : Backed one_table 0x2000 0x4fff
one_table-Backed a lo hi = ground arith

unmap_range_done_example :
    (t' : Tables) × (unmap_range one_table 0x2000 0x4fff ≡ done t')
    × Unmapped one_table 0x2000 0x4fff t'
unmap_range_done_example =
    unmap_range_done one_table 0x2000 0x4fff refl (omega arith) (omega arith) one_table-Backed

abbrev vm : Vm stack
vm = record { id = 1; tables = empty_tables; mm = 0 }

vm-IsClean : IsClean stack vm
unfolding probe_pte
vm-IsClean n start v s e h i = ground arith

abbrev bo : Bo
bo = record { va = []; heap_size = 0; size = 8192; sgt = 0x50000000 ∷ 0x50005000 ∷ [] }

bo_add_lem_example :
    (r : Status) × (vm' : Vm stack) × (bo' : Bo) × (d' : Dma) × (bo_add stack true vm bo dma true
      ≡ done (r, vm', bo', d'))
    × AddPost stack vm bo dma (bo_find 1 []) r vm' bo' d'
bo_add_lem_example = bo_add_lem stack true true vm bo dma stack-MmLaws vm-IsClean refl (omega arith)

abbrev mapped_vm : Vm stack
mapped_vm = record { id = 1; tables = (map_pages empty_tables dma bo.sgt 0 0).2; mm = 8192 }

abbrev entry_of_vm : BoVa
entry_of_vm = record { vm = 1; ref_count = 1; start = 0; size = 8192 }

abbrev mapped_bo : Bo
mapped_bo = record bo { va = entry_of_vm ∷ [] }

bo_add_run :
    bo_add stack true vm bo dma true
    ≡ done (success, mapped_vm, mapped_bo, (map_pages empty_tables dma bo.sgt 0 0).3)
unfolding bo_add bo_add_new map_pages map_page find_bt alloc_bt dma_alloc bo_find write_pte
bo_add_run = refl

get_va_run : get_va stack mapped_vm mapped_bo ≡ done 0
unfolding get_va bo_find
get_va_run = refl

not_found : bo_find 1 bo.va ≡ none
unfolding bo_find
not_found = refl

bo_del-bo_add_new_example :
    (stack.insert 0 8192 ≡ ok (0, 8192))
    × (vm' : Vm stack) × (bo_del stack mapped_vm mapped_bo ≡ done (vm', bo))
    × SameSpace stack vm vm'
bo_del-bo_add_new_example =
    bo_del-bo_add_new stack true true vm mapped_vm bo mapped_bo dma
      (map_pages empty_tables dma bo.sgt 0 0).3 0 stack-MmLaws vm-IsClean not_found refl refl
      (omega arith) (omega arith) bo_add_run get_va_run (omega arith)

found : bo_find 1 mapped_bo.va ≡ some entry_of_vm
unfolding bo_find
found = refl

abbrev grown_bo : Bo
grown_bo = record mapped_bo { heap_size = 12288; sgt = 0x50000000 ∷ 0x50005000 ∷ 0x50006000 ∷ [] }

grown_found : bo_find 1 grown_bo.va ≡ some entry_of_vm
unfolding bo_find
grown_found = refl

map_bo-MapPost_example :
    (r : Status) × (t : Tables) × (d' : Dma) × (map_bo stack vm grown_bo dma 2
      ≡ done (r, record vm { tables = t }, d'))
    × MapPost stack empty_tables (0x50006000 ∷ []) 8192 r t
unfolding probe_pte
map_bo-MapPost_example =
    map_bo-MapPost stack vm grown_bo dma entry_of_vm 2 grown_found refl (omega arith) (omega arith)
      λ x h i. ground arith

abbrev top_entry : BoVa
top_entry = record { vm = 1; ref_count = 1; start = 0xffffe000; size = 8192 }

abbrev top_bo : Bo
top_bo = record bo { va = top_entry ∷ [] }

top_found : bo_find 1 top_bo.va ≡ some top_entry
unfolding bo_find
top_found = refl

-- A space whose pages all have tables.
abbrev full_vm : Vm stack
full_vm = record vm { tables = record empty_tables { bts = λ i. some table_page } }

full_vm-Backed : Backed full_vm.tables 0 0xffffffff
full_vm-Backed a lo hi = refl

bo_del_top_example :
    ((fuel : ℕ) → unmap_from fuel full_vm.tables 0xffffe000 0xffffffff ≡ out_of_fuel)
    × (bo_del stack full_vm top_bo ≡ out_of_fuel)
bo_del_top_example =
    bo_del_top stack full_vm top_bo top_entry top_found refl refl (omega arith) refl refl
      full_vm-Backed

abbrev device : Device
device = record { va_start = 0; va_end = 0xfff00000; dlbu = some 0x60000000 }

abbrev object : Object stack
object = record {
  ref_count = 1;
  pd_dma = 0x40000000;
  tables = (map_page empty_tables (dma_alloc dma).1 0x60000000 0xfff00000).1;
  mm = 0;
}

create_run : (create stack true device dma).0 ≡ some object
unfolding create lima_freebsd.Vm.Life.create_with map_page find_bt alloc_bt dma_alloc write_pte
create_run = refl

release-map_all-create_example :
    (let (t, d') =
        map_all
          ((0x50000000, 0x3000) ∷ (0x50001000, 0x4000) ∷ [])
          object.tables
          (create stack true device dma).1 in
      times 0x40200000 (release stack (record object { tables = t }) d').live)
    ≡ times 0x40200000 dma.live
release-map_all-create_example =
    release-map_all-create stack true device dma object
      ((0x50000000, 0x3000) ∷ (0x50001000, 0x4000) ∷ []) 0x40200000 create_run

abbrev full : Dma
full = record { bus = λ _. none; calls = 0; live = [] }

create_fails : (create stack true device full).0 ≡ none
unfolding create dma_alloc
create_fails = refl
