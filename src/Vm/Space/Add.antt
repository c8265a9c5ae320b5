-- ===== src/Vm/Space/Add.antt =====
-- lima_vm_bo_add.
use lima_freebsd.Base.{
  ℕ, add-zero, is_some, enoent, enomem, ◌+◌, ◌-◌, ◌*◌, ◌%◌, ◌<◌, ◌≤◌, ◌≡◌, refl, Option, none, some,
  [], ◌∷◌, ◌++◌, arith, Bool, true, Result-cases, Bool-cases, inl, inr, ok, err, Status, success,
  Run, done, length, List, ap,
}
use lima_freebsd.Vm.Mm.{Mm, MmLaws}
use lima_freebsd.Vm.Table.{pbe, u32_mod, page_size, Tables, Dma}
use lima_freebsd.Vm.Table.Mapping.{entry}
use lima_freebsd.Vm.Table.Unmap.{in_pages}
use lima_freebsd.Vm.Space.{BoVa, Bo, Vm, bo_find, set_ref_count, map_pages, bo_add_new, bo_add}
use lima_freebsd.Vm.Space.Undo.{undo_pages_done}
use lima_freebsd.Vm.Space.Pages.{
  overlay, map_pages-overlay, map_pages_err_stop, map_pages_ok_backs, Undone,
}
use lima_freebsd.Vm.Space.Vas.{set_ref_count_at}

module _ (m : Mm) where
  -- A range that the allocator would hand out reads 0.
  abbrev pub IsClean : Vm m → Type 0
  IsClean vm =
      (n start v : ℕ) (s : m.Space)
      → m.insert vm.mm n ≡ ok (start, s)
      → v < u32_mod
      → in_pages start (start + n - 1) v ≡ true
      → entry vm.tables v ≡ 0

  -- The address space reads, and allocates, as it did.
  pub record SameSpace (vm vm' : Vm m) : Type 0 where
    pub same_id : vm'.id ≡ vm.id
    pub same_mm : vm'.mm ≡ vm.mm
    pub reads_same : (v : ℕ) → v < u32_mod → entry vm'.tables v ≡ entry vm.tables v

  -- The buffer has a new entry with one reference, whose range is allocated and holds its pages.
  pub record Added (vm : Vm m) (bo : Bo) (vm' : Vm m) (bo' : Bo) : Type 0 where
    pub start : ℕ
    pub inserted : m.insert vm.mm bo.size ≡ ok (start, vm'.mm)
    pub same_id : vm'.id ≡ vm.id
    pub entered : bo' ≡ record bo {
      va = bo.va ++ record { vm = vm.id; ref_count = 1; start = start; size = bo.size } ∷ [];
    }
    pub pages_mapped : (v : ℕ) → v < u32_mod → entry vm'.tables v ≡ overlay vm.tables bo.sgt start v
    pub backed :
        (a : ℕ)
        → start ≤ a
        → a < start + length bo.sgt * page_size
        → is_some (vm'.tables.bts (pbe a)) ≡ true

  abbrev pub Outcome : Vm m → Bo → Status → Vm m → Bo → Type 0
  Outcome vm bo (ok u) vm' bo' = Added vm bo vm' bo'
  Outcome vm bo (err e) vm' bo' = SameSpace vm vm' × (bo' ≡ bo)

  abbrev pub Total : Vm m → Bo → Run (Status × Vm m × Bo × Dma) → Type 0
  Total vm bo run =
      (r : Status) × (vm' : Vm m) × (bo' : Bo) × (d' : Dma) × (run ≡ done (r, vm', bo', d'))
      × Outcome vm bo r vm' bo'

  SameSpace-refl : (vm : Vm m) → SameSpace vm vm
  SameSpace-refl vm = record { same_id = refl; same_mm = refl; reads_same = λ v h. refl }

  -- Undoing gives back what the table read, since the range read 0 before.
  Undone-same :
      (vm : Vm m) (t : Tables) (d : Dma) (n start off v : ℕ) (s : m.Space)
      → IsClean vm
      → m.insert vm.mm n ≡ ok (start, s)
      → off ≤ n
      → v < u32_mod
      → Undone start vm.tables t d off
      → entry t v ≡ entry vm.tables v
  Undone-same vm t d n start off v s clean f le h u =
      ground (arith, u.reads v h, clean n start v s f h)

  bo_add_new_lem :
      (vm : Vm m) (bo : Bo) (d : Dma)
      → MmLaws m
      → IsClean vm
      → bo.size % page_size ≡ 0
      → length bo.sgt * page_size ≤ bo.size
      → Total vm bo (bo_add_new m vm bo d)
  unfolding bo_add_new
  bo_add_new_lem vm bo d laws clean al fits = elim (Result-cases (m.insert vm.mm bo.size)) [
    | inr (e, f) ↦ (err e, vm, bo, d, rw (f, bo_add_new), (SameSpace-refl vm, refl))
    | inl ((start, s), f) ↦
        let start_al : start % page_size ≡ 0 = laws.insert_aligned vm.mm s bo.size start al f in
        let inside : start + bo.size ≤ u32_mod = laws.insert_fits vm.mm s bo.size start f in
        elim (Result-cases (map_pages vm.tables d bo.sgt start 0).0) [
          | inl (u, g) ↦ (
            success,
            record vm { tables = (map_pages vm.tables d bo.sgt start 0).2; mm = s },
            record bo {
              va =
                  bo.va ++ record { vm = vm.id; ref_count = 1; start = start; size = bo.size } ∷ [];
            },
            (map_pages vm.tables d bo.sgt start 0).3,
            rw (f, g, bo_add_new),
            record {
              start = start;
              inserted = f;
              same_id = refl;
              entered = refl;
              pages_mapped = λ v h.
                  rw add-zero at (
                    map_pages-overlay bo.sgt vm.tables d start 0 v (omega arith) (omega arith) h g);
              backed = λ a lo hi.
                  map_pages_ok_backs start bo.sgt vm.tables d a start_al (omega arith) g lo hi;
            },
          )
          | inr (e, g) ↦
              let (t, run, u) =
                undo_pages_done start bo.sgt vm.tables d e start_al (omega arith) g in
              (
                err e,
                record vm { tables = t; mm = m.remove s start },
                bo,
                (map_pages vm.tables d bo.sgt start 0).3,
                rw (f, g, run, bo_add_new),
                (
                  record {
                    same_id = refl;
                    same_mm = laws.remove_insert vm.mm s bo.size start f;
                    reads_same = λ v h.
                        Undone-same vm t d bo.size start (map_pages vm.tables d bo.sgt start 0).1 v
                          s clean f
                          (omega (arith, map_pages_err_stop start bo.sgt vm.tables d 0 e g)) h u;
                  },
                  refl,
                ),
              )
        ]
  ]

  -- What `lima_vm_bo_add` has done, by what `lima_vm_bo_find` finds.
  abbrev pub AddPost : Vm m → Bo → Dma → Option BoVa → Status → Vm m → Bo → Dma → Type 0
  AddPost vm bo d (some v) r vm' bo' d' =
      (r ≡ success)
      × (vm' ≡ vm)
      × (d' ≡ d)
      × (before after : List BoVa) × (bo.va ≡ before ++ v ∷ after)
      × (bo_find vm.id before ≡ none)
      × (bo' ≡ record bo {
        va = before ++ record v { ref_count = (v.ref_count + 1) % u32_mod } ∷ after;
      })
  AddPost vm bo d none r vm' bo' d' = Outcome vm bo r vm' bo'

  -- `lima_vm_bo_add` returns. For a buffer that the space holds it answers success and counts one more
  -- reference, in 32 bits, in the entry of the space; every other entry, the rest of the buffer, the
  -- space and the allocator of tables are as they were. Otherwise it either succeeds, with the range
  -- of a new node holding the buffer's pages and the rest of the space reading as before; or fails,
  -- and then the allocator of ranges, the buffer and every word of the tables are as they were. This
  -- is for an allocator of ranges that keeps its laws and a space where what it would hand out
  -- reads 0, and for a buffer whose size is a multiple of the page and whose pages fit its size.
  pub bo_add_lem :
      (kzalloc create : Bool) (vm : Vm m) (bo : Bo) (d : Dma)
      → MmLaws m
      → IsClean vm
      → bo.size % page_size ≡ 0
      → length bo.sgt * page_size ≤ bo.size
      → (r : Status) × (vm' : Vm m) × (bo' : Bo) × (d' : Dma) × (bo_add m kzalloc vm bo d create
          ≡ done (r, vm', bo', d'))
        × AddPost vm bo d (bo_find vm.id bo.va) r vm' bo' d'
  bo_add_lem kz create vm bo d laws clean al fits = by_find (bo_find vm.id bo.va) refl
    where
      by_find :
          (o : Option BoVa)
          → bo_find vm.id bo.va ≡ o
          → (r : Status) × (vm' : Vm m) × (bo' : Bo) × (d' : Dma) × (bo_add m kz vm bo d create
              ≡ done (r, vm', bo', d'))
            × AddPost vm bo d o r vm' bo' d'
      by_find (some v) f =
          let n = (v.ref_count + 1) % u32_mod in
          let (before, after, split, first, set) = set_ref_count_at vm.id n bo.va v f in
          (
            success,
            vm,
            record bo { va = set_ref_count vm.id n bo.va },
            d,
            unfold bo_add in rw (f, bo_add),
            (
              refl,
              refl,
              refl,
              before,
              after,
              split,
              first,
              ap {B = Bo} (λ l. record bo { va = l }) set,
            ),
          )
      by_find none f = elim (Bool-cases create) [
        | inr c ↦
            (err enoent, vm, bo, d, unfold bo_add in rw (f, c, bo_add), (SameSpace-refl vm, refl))
        | inl c ↦ elim (Bool-cases kz) [
          | inr k ↦ (
            err enomem,
            vm,
            bo,
            d,
            unfold bo_add in rw (f, c, k, bo_add),
            (SameSpace-refl vm, refl),
          )
          | inl k ↦
              let (r, vm', bo', d', run, post) = bo_add_new_lem vm bo d laws clean al fits in
              (r, vm', bo', d', unfold bo_add in rw (f, c, k, bo_add) run, post)
        ]
      ]
