-- ===== src/Vm/Space/Undo.antt =====
-- The undoing of a loop over the pages of a buffer that stopped.
use lima_freebsd.Base.{
  ℕ, ◌+◌, ◌-◌, ◌*◌, ◌%◌, ◌<◌, ◌≤◌, ◌≡◌, List, arith, ◌==◌, Bool-cases, inl, inr, Errno, err, done,
  length,
}
use lima_freebsd.Vm.Table.{u32_mod, page_size, Tables, Dma}
use lima_freebsd.Vm.Table.Unmap.{unmap_range_done}
use lima_freebsd.Vm.Space.{map_pages, undo_pages}
use lima_freebsd.Vm.Space.Pages.{
  Undone, map_pages_stop, map_pages_err_stop, map_pages_outside, map_pages_backs,
  map_pages-IsWalkable,
}

module _ (base : ℕ) where
  -- The undoing of a loop that stopped: the pages that it had mapped read 0, and no other page has
  -- changed.
  pub undo_pages_done :
      (pas : List ℕ) (t : Tables) (d : Dma) (e : Errno)
      → base % page_size ≡ 0
      → base + length pas * page_size ≤ u32_mod
      → (map_pages t d pas base 0).0 ≡ err e
      → let (r, off, t', d') = map_pages t d pas base 0 in
        (t'' : Tables) × (undo_pages t' base off ≡ done t'') × Undone base t t'' d off
  unfolding undo_pages
  undo_pages_done pas t d e al fits stopped = elim (Bool-cases (off == 0)) [
    | inl z ↦ (
      t',
      rw z,
      record {
        reads =
            λ v h. ground (arith, map_pages_outside base pas t d 0 v (omega arith) (omega arith) h);
        walkable = map_pages-IsWalkable base pas t d 0;
      },
    )
    | inr n ↦
        let nz : 0 < off = ground arith in
        let (t'', run, u) =
          unmap_range_done t' base (base + off - 1) al (omega (arith, nz)) (omega (arith, room, nz))
            λ a lo hi.
              map_pages_backs base pas t d 0 a (omega arith) (omega arith) (omega arith)
                (omega (arith, nz)) in
        let start : base % u32_mod ≡ base = omega (arith, room) in
        let end : (base + off - 1) % u32_mod ≡ base + off - 1 = omega (arith, room) in
        (
          t'',
          rw (n, start, end) run,
          record {
            reads = λ v h. ground (
              arith,
              u.cleared v h,
              map_pages_outside base pas t d 0 v (omega arith) (omega arith) h,
            );
            walkable = λ b w. u.walkable (map_pages-IsWalkable base pas t d 0 b w);
          },
        )
  ]
    where
      off : ℕ
      off = (map_pages t d pas base 0).1

      t' : Tables
      t' = (map_pages t d pas base 0).2

      aligned : off % page_size ≡ 0
      aligned = omega (arith, map_pages_stop base pas t d 0)

      room : off + page_size ≤ length pas * page_size
      room = omega (arith, map_pages_err_stop base pas t d 0 e stopped)
