-- ===== src/Ctx/Handles.antt =====
-- The XArray of LinuxKPI as the driver uses it, in allocating mode: its operations, and what the
-- driver relies on of them.
use lima_freebsd.Base.{
  ℕ, ◌+◌, ◌<◌, ◌≡◌, List, Option, none, some, ◌==◌, if◌then◌else◌, Result, ok, times,
}

pub record Xa : Type 1 where
  pub Table : Type 0
  pub load : Table → ℕ → Option ℕ
  -- `xa_alloc` with `xa_limit_32b`: the index.
  pub alloc : Table → ℕ → Result (ℕ × Table)
  -- The table that `xa_erase` leaves; it returns what `load` finds.
  pub erase : Table → ℕ → Table
  -- The entries in the order of `xa_for_each`.
  pub values : Table → List ℕ

-- An allocation adds its entry, at an index that finds it; an index that finds an entry is one of the
-- entries, and erasing it takes that one away.
pub record XaLaws (x : Xa) : Type 0 where
  pub alloc_adds :
      (t t' : x.Table) (c id v : ℕ)
      → x.alloc t c ≡ ok (id, t')
      → times v (x.values t') ≡ (if c == v then 1 else 0) + times v (x.values t)
  pub alloc_load : (t t' : x.Table) (c id : ℕ) → x.alloc t c ≡ ok (id, t') → x.load t' id ≡ some c
  pub load_held : (t : x.Table) (c id : ℕ) → x.load t id ≡ some c → 0 < times c (x.values t)
  pub erase_drops :
      (t : x.Table) (c id v : ℕ)
      → x.load t id ≡ some c
      → times v (x.values t) ≡ (if c == v then 1 else 0) + times v (x.values (x.erase t id))
  pub erase_absent :
      (t : x.Table) (id v : ℕ)
      → x.load t id ≡ none
      → times v (x.values (x.erase t id)) ≡ times v (x.values t)
