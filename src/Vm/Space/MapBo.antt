-- ===== src/Vm/Space/MapBo.antt =====
-- lima_vm_map_bo: the pages that a heap has grown by, mapped in the range that its buffer already has.
use lima_freebsd.Base.{
  ℕ, ◌+◌, ◌*◌, ◌%◌, ◌<◌, ◌≤◌, ◌≡◌, ap, ◌∙◌, add-zero, drop, some, List, Result-cases, inl, inr,
  arith, length, ok, err, Status, success, done,
}
use lima_freebsd.Vm.Mm.{Mm}
use lima_freebsd.Vm.Table.{u32_mod, page_size, Tables, Dma}
use lima_freebsd.Vm.Table.Mapping.{entry}
use lima_freebsd.Vm.Space.{Bo, BoVa, Vm, bo_find, map_pages, map_at, map_bo}
use lima_freebsd.Vm.Space.Pages.{
  overlay, map_pages-overlay, map_pages_stop, map_pages_err_stop, Undone,
}
use lima_freebsd.Vm.Space.Undo.{undo_pages_done}

module _ (m : Mm) where
  -- Where the pages go: the new ones over the tables that were, or the tables as they read before.
  abbrev pub MapPost : Tables → List ℕ → ℕ → Status → Tables → Type 0
  MapPost t pas base (ok u) t' = (x : ℕ) → x < u32_mod → entry t' x ≡ overlay t pas base x
  MapPost t pas base (err e) t' = (x : ℕ) → x < u32_mod → entry t' x ≡ entry t x

  reads_same :
      (t t'' : Tables) (d : Dma) (base : ℕ) (pas : List ℕ) (off x : ℕ)
      → off ≤ length pas * page_size
      → x < u32_mod
      → ((y : ℕ) → base ≤ y → y < base + length pas * page_size → entry t y ≡ 0)
      → Undone base t t'' d off
      → base % page_size ≡ 0
      → off % page_size ≡ 0
      → entry t'' x ≡ entry t x
  reads_same t t'' d base pas off x le h clean u al al' = ground (arith, u.reads x h, clean x)

  -- `lima_vm_map_bo` for a buffer that the space holds returns. It succeeds with the buffer's pages
  -- from `pageoff` on mapped at their places in its range and every other page reading as before, or
  -- fails with every page reading as before; the allocator is not touched. The range of these pages is
  -- page-aligned, lies below 4 GiB and read 0 before.
  pub map_bo-MapPost :
      (vm : Vm m) (bo : Bo) (d : Dma) (v : BoVa) (pageoff : ℕ)
      → bo_find vm.id bo.va ≡ some v
      → v.start % page_size ≡ 0
      → v.start + pageoff * page_size < u32_mod
      → v.start + pageoff * page_size + length (drop pageoff bo.sgt) * page_size ≤ u32_mod
      → ((x : ℕ)
          → v.start + pageoff * page_size ≤ x
          → x < v.start + pageoff * page_size + length (drop pageoff bo.sgt) * page_size
          → entry vm.tables x ≡ 0)
      → (r : Status) × (t : Tables) × (d' : Dma) × (map_bo m vm bo d pageoff
          ≡ done (r, record vm { tables = t }, d'))
        × MapPost vm.tables (drop pageoff bo.sgt) (v.start + pageoff * page_size) r t
  map_bo-MapPost vm bo d v pageoff f al low fits clean =
      elim (Result-cases (map_pages vm.tables d pas base 0).0) [
        | inl (u, g) ↦ (
          success,
          (map_pages vm.tables d pas base 0).2,
          (map_pages vm.tables d pas base 0).3,
          at_base ∙ (unfold map_at in rw (g, map_at)),
          λ x h.
              rw add-zero at
                (map_pages-overlay pas vm.tables d base 0 x (omega arith) (omega arith) h g),
        )
        | inr (e, g) ↦
            let (t, run, u) = undo_pages_done base pas vm.tables d e (omega arith) fits g in
            (
              err e,
              t,
              (map_pages vm.tables d pas base 0).3,
              at_base ∙ (unfold map_at in rw (g, run, map_at)),
              λ x h.
                  reads_same vm.tables t d base pas off x
                    (omega (arith, map_pages_err_stop base pas vm.tables d 0 e g)) h clean u
                    (omega arith) (omega (arith, map_pages_stop base pas vm.tables d 0)),
            )
      ]
    where
      pas : List ℕ
      pas = drop pageoff bo.sgt

      base : ℕ
      base = v.start + pageoff * page_size

      off : ℕ
      off = (map_pages vm.tables d pas base 0).1

      cut : (v.start + pageoff * page_size) % u32_mod ≡ v.start + pageoff * page_size
      cut = omega (arith, low)

      found :
          map_bo m vm bo d pageoff ≡ map_at m vm pas d ((v.start + pageoff * page_size) % u32_mod)
      found = unfold map_bo in rw (f, map_bo)

      at_base : map_bo m vm bo d pageoff ≡ map_at m vm pas d base
      at_base = found ∙ ap (map_at m vm pas d) cut
