-- ===== src/Vm/Space/Del.antt =====
-- lima_vm_bo_del, and its balance with lima_vm_bo_add.
use lima_freebsd.Base.{
  ℕ, ◌+◌, ◌-◌, ◌*◌, ◌/◌, ◌%◌, ◌<◌, ◌≤◌, ◌≡◌, refl, ap, none, some, arith, Bool, true, ltb, ◌==◌,
  if◌then◌else◌, success, done, length, get_elem?-past, out_of_fuel, and_then,
}
use lima_freebsd.Vm.Mm.{Mm, MmLaws}
use lima_freebsd.Vm.Table.{u32_mod, page_size, Tables, Dma, unmap_range, unmap_fuel, unmap_from}
use lima_freebsd.Vm.Table.Mapping.{entry}
use lima_freebsd.Vm.Table.Unmap.{Unmapped, unmap_range_done, unmap_from_top, Backed}
use lima_freebsd.Vm.Space.{
  BoVa, Bo, Vm, bo_find, set_ref_count, del_va, del_size, bo_unmap, bo_add, bo_del,
}
use lima_freebsd.Vm.Space.Vas.{
  bo_find-set_ref_count, set_ref_count_set, set_ref_count_self, bo_find-append, del_va-append,
}
use lima_freebsd.Vm.Space.Add.{IsClean, SameSpace, Added}

-- The number of bytes whose entries the removal of a buffer's last reference clears.
abbrev pub populated : Bo → ℕ
populated bo = if bo.heap_size == 0 then bo.size else bo.heap_size

module _ (m : Mm) where
  -- A reference taken by `lima_vm_bo_add` on a mapping that is there, and dropped by
  -- `lima_vm_bo_del`, leaves the address space and the buffer exactly as they were.
  pub bo_del-bo_add :
      (kzalloc create : Bool) (vm : Vm m) (bo : Bo) (d : Dma) (v : BoVa)
      → bo_find vm.id bo.va ≡ some v
      → 0 < v.ref_count
      → v.ref_count + 1 < u32_mod
      → (bo' : Bo) × (bo_add m kzalloc vm bo d create ≡ done (success, vm, bo', d))
        × (bo_del m vm bo' ≡ done (vm, bo))
  unfolding bo_add bo_del
  bo_del-bo_add kz create vm bo d v f pos small = (
    record bo { va = set_ref_count vm.id ((v.ref_count + 1) % u32_mod) bo.va },
    rw (f, bo_add),
    rw (found, bo_del, more, back, set_ref_count_set) (rw (set_ref_count_self vm.id bo.va v f)),
  )
    where
      found :
          bo_find vm.id (set_ref_count vm.id ((v.ref_count + 1) % u32_mod) bo.va)
          ≡ some (record v { ref_count = (v.ref_count + 1) % u32_mod })
      found = bo_find-set_ref_count vm.id ((v.ref_count + 1) % u32_mod) bo.va v f

      more : ltb 0 (((v.ref_count + 1) % u32_mod + u32_mod - 1) % u32_mod) ≡ true
      more = ground arith

      back : ((v.ref_count + 1) % u32_mod + u32_mod - 1) % u32_mod ≡ v.ref_count
      back = omega arith

  reads_restored :
      (vm vm' : Vm m) (bo bo' : Bo) (t : Tables) (v : ℕ)
      → (a : Added m vm bo vm' bo') → IsClean m vm
      → length bo.sgt * page_size ≡ populated bo
      → populated bo ≤ bo.size
      → a.start % page_size ≡ 0
      → Unmapped vm'.tables a.start (a.start + populated bo - 1) t
      → v < u32_mod
      → entry t v ≡ entry vm.tables v
  reads_restored vm vm' bo bo' t v a clean pop le al u h = ground (
    arith,
    u.cleared v h,
    a.pages_mapped v h,
    clean bo.size a.start v vm'.mm a.inserted h,
    get_elem?-past bo.sgt (v / page_size - a.start / page_size),
  )

  -- The last reference: what the removal does, once its loop is known to end.
  bo_del_one :
      (vm : Vm m) (bo : Bo) (v : BoVa) (t : Tables)
      → bo_find vm.id bo.va ≡ some v
      → v.ref_count ≡ 1
      → unmap_range vm.tables
          (v.start % u32_mod)
          ((v.start + del_size m bo v + u32_mod - 1) % u32_mod)
        ≡ done t
      → bo_del m vm bo
        ≡ done (
          record vm { tables = t; mm = m.remove vm.mm v.start },
          record bo { va = del_va vm.id bo.va },
        )
  unfolding bo_del bo_unmap
  bo_del_one vm bo v t f one run = rw (f, bo_del, one, run)

  -- The entry that was added is the one found, and its removal gives the buffer back.
  pub found_entry :
      (vm vm' : Vm m) (bo bo' : Bo)
      → bo_find vm.id bo.va ≡ none
      → (a : Added m vm bo vm' bo')
      → (bo_find vm'.id bo'.va
          ≡ some (record { vm = vm.id; ref_count = 1; start = a.start; size = bo.size }))
        × (record bo' { va = del_va vm'.id bo'.va } ≡ bo)
        × (bo'.heap_size ≡ bo.heap_size)
  found_entry vm vm' bo bo' f a =
      let v : BoVa = record { vm = vm.id; ref_count = 1; start = a.start; size = bo.size } in
      rw (a.entered, a.same_id)
        (
          bo_find-append vm.id bo.va v f refl,
          ap (λ l. record bo { va = l }) (del_va-append vm.id bo.va v f refl),
          refl,
        )

  -- Dropping the last reference of a buffer that was just mapped undoes the mapping: the entry is
  -- gone from the buffer, the node from the allocator, and every word of the tables reads as before.
  -- The buffer's range must not include the last page of the 4 GiB.
  pub bo_del_last :
      (vm vm' : Vm m) (bo bo' : Bo)
      → MmLaws m
      → IsClean m vm
      → bo_find vm.id bo.va ≡ none
      → bo.size % page_size ≡ 0
      → length bo.sgt * page_size ≡ populated bo
      → 0 < populated bo
      → populated bo ≤ bo.size
      → (a : Added m vm bo vm' bo') → a.start + populated bo < u32_mod
      → (vm'' : Vm m) × (bo_del m vm' bo' ≡ done (vm'', bo)) × SameSpace m vm vm''
  bo_del_last vm vm' bo bo' laws clean f al pop pos le a top = (
    record vm' { tables = t; mm = m.remove vm'.mm a.start },
    rw (bo_del_one vm' bo' v t found.0 refl range)
        (ap (λ b. done (record vm' { tables = t; mm = m.remove vm'.mm a.start }, b)) found.1),
    record {
      same_id = a.same_id;
      same_mm = laws.remove_insert vm.mm vm'.mm bo.size a.start a.inserted;
      reads_same = λ v h. reads_restored vm vm' bo bo' t v a clean pop le start_al unmapped.2 h;
    },
  )
    where
      v : BoVa
      v = record { vm = vm.id; ref_count = 1; start = a.start; size = bo.size }

      found :
          (bo_find vm'.id bo'.va ≡ some v)
          × (record bo' { va = del_va vm'.id bo'.va } ≡ bo)
          × (bo'.heap_size ≡ bo.heap_size)
      found = found_entry vm vm' bo bo' f a

      start_al : a.start % page_size ≡ 0
      start_al = laws.insert_aligned vm.mm vm'.mm bo.size a.start al a.inserted

      pop_al : populated bo % page_size ≡ 0
      pop_al = omega (arith, pop)

      unmapped :
          (t : Tables) × (unmap_range vm'.tables a.start (a.start + populated bo - 1) ≡ done t)
          × Unmapped vm'.tables a.start (a.start + populated bo - 1) t
      unmapped =
          unmap_range_done vm'.tables a.start (a.start + populated bo - 1) start_al
            (omega (arith, pos)) (omega (arith, pop_al, start_al, pos, top))
            (λ x lo hi. a.backed x lo (omega (arith, pop, pos)))

      t : Tables
      t = unmapped.0

      low : a.start % u32_mod ≡ a.start
      low = omega (arith, top)

      high : (a.start + del_size m bo' v + u32_mod - 1) % u32_mod ≡ a.start + populated bo - 1
      high = ground (arith, found.2, top, pos)

      range :
          unmap_range vm'.tables
            (a.start % u32_mod)
            ((a.start + del_size m bo' v + u32_mod - 1) % u32_mod)
          ≡ done t
      range = rw (low, high) unmapped.1

  -- A buffer that is no heap, and whose range starts at a page and ends at 4 GiB, cannot be released
  -- from a space whose pages all have tables: with its last reference, the loop of `lima_vm_bo_del`
  -- over the pages is still running after any number of rounds, since its address wraps, so the call
  -- comes to no end and to no fault.
  pub bo_del_top :
      (vm : Vm m) (bo : Bo) (v : BoVa)
      → bo_find vm.id bo.va ≡ some v
      → v.ref_count ≡ 1
      → v.start % page_size ≡ 0
      → v.start < u32_mod
      → bo.heap_size ≡ 0
      → v.start + v.size ≡ u32_mod
      → Backed vm.tables 0 (u32_mod - 1)
      → ((fuel : ℕ) → unmap_from fuel vm.tables v.start (v.start + v.size - 1) ≡ out_of_fuel)
        × (bo_del m vm bo ≡ out_of_fuel)
  unfolding bo_del bo_unmap unmap_range
  bo_del_top vm bo v f one al small heap top b = (
    λ fuel. unmap_from_top fuel vm.tables v.start (v.start + v.size - 1) al small (omega arith) b,
    rw (f, bo_del, one)
        (ap
          (λ r. and_then r λ t. done (
            record vm { tables = t; mm = m.remove vm.mm v.start },
            record bo { va = del_va vm.id bo.va },
          ))
          (unmap_from_top unmap_fuel vm.tables (v.start % u32_mod)
            ((v.start + del_size m bo v + u32_mod - 1) % u32_mod) (omega arith) (omega arith)
            (ground arith) b)),
  )
