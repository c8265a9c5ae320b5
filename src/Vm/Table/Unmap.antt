-- ===== src/Vm/Table/Unmap.antt =====
-- lima_vm_unmap_range: the range it clears, when it ends, and when it does not.
use lima_freebsd.Base.{
  ℕ, zero, suc, ◌+◌, ◌/◌, ◌%◌, ◌<◌, ◌≤◌, ◌≡◌, refl, ◌∙◌, Option, some, arith, Bool, true, ◌&&◌, leb,
  if◌then◌else◌, is_some, Bool-cases, inl, inr, done, leb→le, out_of_fuel, ◌-◌,
}
use lima_freebsd.Vm.Table.{
  u32_mod, page_size, pbe, bte, VmPage, Tables, write_pte, unmap_from, unmap_range, unmap_fuel,
}
use lima_freebsd.Vm.Table.Mapping.{entry, entry-write}
use lima_freebsd.Vm.Table.Walk.{IsWalkable, write_pte-IsWalkable}

-- Every page of the range has a backing table.
abbrev pub Backed : Tables → ℕ → ℕ → Type 0
Backed t start end = (a : ℕ) → start ≤ a → a ≤ end → is_some (t.bts (pbe a)) ≡ true

abbrev pub in_pages : ℕ → ℕ → ℕ → Bool
in_pages start end v =
    leb (start / page_size) (v / page_size) && leb (v / page_size) (end / page_size)

-- What the loop leaves: the pages of the range read 0, the rest as before, and the tables are where
-- they were.
pub record Unmapped (t : Tables) (start end : ℕ) (t' : Tables) : Type 0 where
  pub cleared : (v : ℕ) → v < u32_mod → entry t' v ≡ (if in_pages start end v then 0 else entry t v)
  pub tables_kept : (slot : ℕ) → is_some (t'.bts slot) ≡ is_some (t.bts slot)
  pub walkable : IsWalkable t → IsWalkable t'

is_some_elim : {o : Option VmPage} → is_some o ≡ true → (bt : VmPage) × (o ≡ some bt)
is_some_elim {o} h = ground arith

clear-Backed :
    (t : Tables) (addr end : ℕ) (bt : VmPage)
    → t.bts (pbe addr) ≡ some bt
    → Backed t addr end
    → Backed (write_pte t (pbe addr) bt (bte addr) 0) (addr + page_size) end
unfolding write_pte
clear-Backed t addr end bt e b a lo hi = ground (arith, b a (omega arith) hi)

step-Unmapped :
    (t t' : Tables) (addr end : ℕ) (bt : VmPage)
    → addr % page_size ≡ 0
    → addr ≤ end
    → addr < u32_mod
    → t.bts (pbe addr) ≡ some bt
    → Unmapped (write_pte t (pbe addr) bt (bte addr) 0) (addr + page_size) end t'
    → Unmapped t addr end t'
step-Unmapped t t' addr end bt al le small e u = record {
  cleared = λ v h. ground (arith, u.cleared v h, entry-write t bt addr v 0 small h e);
  tables_kept = λ slot. u.tables_kept slot ∙ kept slot;
  walkable = λ w. u.walkable (write_pte-IsWalkable t (pbe addr) bt (bte addr) 0 e w);
}
  where
    kept :
        (slot : ℕ)
        → is_some ((write_pte t (pbe addr) bt (bte addr) 0).bts slot) ≡ is_some (t.bts slot)
    kept slot = unfold write_pte in ground arith

pub unmap_from_done :
    (fuel : ℕ) (t : Tables) (addr end : ℕ)
    → addr % page_size ≡ 0
    → end + page_size < u32_mod
    → addr ≤ end + page_size
    → end / page_size + 1 < fuel + addr / page_size
    → Backed t addr end
    → (t' : Tables) × (unmap_from fuel t addr end ≡ done t') × Unmapped t addr end t'
unfolding unmap_from
unmap_from_done zero t addr end al top near enough b = absurd (omega arith)
unmap_from_done (suc fuel) t addr end al top near enough b = elim (Bool-cases (leb addr end)) [
  | inr past ↦ (
    t,
    rw (past, unmap_from),
    record { cleared = λ v h. ground arith; tables_kept = λ slot. refl; walkable = λ w. w },
  )
  | inl more ↦
      let (bt, e) = is_some_elim (b addr (omega arith) (leb→le addr end more)) in
      let (t', run, u) =
        unmap_from_done fuel (write_pte t (pbe addr) bt (bte addr) 0) (addr + page_size) end
          (omega arith) top (omega (arith, leb→le addr end more)) (omega arith)
          (clear-Backed t addr end bt e b) in
      let no_wrap : (addr + page_size) % u32_mod ≡ addr + page_size =
        omega (arith, leb→le addr end more) in
      (
        t',
        rw (more, e, no_wrap, unmap_from) run,
        step-Unmapped t t' addr end bt al (leb→le addr end more)
            (omega (arith, leb→le addr end more)) e u,
      )
]

-- `lima_vm_unmap_range` from a page-aligned address, over a range below the last page of the 32-bit
-- space whose slots all have tables, ends within the fuel and without a fault; it has cleared exactly
-- the pages of the range, has kept every table, and the directory is still in step if it was.
pub unmap_range_done :
    (t : Tables) (start end : ℕ)
    → start % page_size ≡ 0
    → start ≤ end
    → end + page_size < u32_mod
    → Backed t start end
    → (t' : Tables) × (unmap_range t start end ≡ done t') × Unmapped t start end t'
unfolding unmap_range
unmap_range_done t start end al le top b =
    unmap_from_done unmap_fuel t start end al top (omega arith) enough b
  where
    enough : end / page_size + 1 < unmap_fuel + start / page_size
    enough = unfold unmap_fuel in omega arith

-- Where every page of the 32-bit space has a table, the loop over a range that reaches the last page
-- is still running at the end of any amount of fuel: it faults nowhere, and its address wraps.
pub unmap_from_top :
    (fuel : ℕ) (t : Tables) (addr end : ℕ)
    → addr % page_size ≡ 0
    → addr < u32_mod
    → u32_mod ≤ end + page_size
    → Backed t 0 (u32_mod - 1)
    → unmap_from fuel t addr end ≡ out_of_fuel
unfolding unmap_from
unmap_from_top zero t addr end al small top b = refl
unmap_from_top (suc fuel) t addr end al small top b =
    let (bt, e) = is_some_elim (b addr (omega arith) (omega arith)) in
    let more : leb addr end ≡ true = ground (arith, al, small, top) in
    rw (more, e, unmap_from)
      (unmap_from_top fuel (write_pte t (pbe addr) bt (bte addr) 0) ((addr + page_size) % u32_mod)
        end (omega arith) (omega arith) top
        (λ a lo hi. unfold write_pte in ground (arith, b a lo hi)))
