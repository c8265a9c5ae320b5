-- ===== src/Vm/Space/Pages.antt =====
-- The loop over the pages of a buffer, in lima_vm_bo_add and lima_vm_map_bo: what it writes when it
-- ends, what it has written when it stops, and its undoing.
use lima_freebsd.Base.{
  ℕ, zero, suc, ◌+◌, ◌-◌, ◌*◌, ◌/◌, ◌%◌, ◌<◌, ◌≤◌, ◌≡◌, refl, none, some, List, [], ◌∷◌, arith,
  true, false, ltb, ◌==◌, if◌then◌else◌, is_some, ◌⊎◌, Result-cases, ◌&&◌, inl, inr, Errno, err,
  success, length, get_elem?, bit_or,
}
use lima_freebsd.Vm.Table.{u32_mod, page_size, pbe, flags_cache, Tables, Dma, map_page}
use lima_freebsd.Vm.Table.Mapping.{entry, entry-map_page, map_page_err}
use lima_freebsd.Vm.Table.Walk.{IsBus, IsWalkable, map_page-IsWalkable}
use lima_freebsd.Vm.Table.Geometry.{slot_of_page}
use lima_freebsd.Vm.Table.Growth.{map_page_grows, map_page_backs, bus-map_page}
use lima_freebsd.Vm.Table.Unmap.{in_pages}
use lima_freebsd.Vm.Space.{map_pages}

-- The pages `pas`, mapped from `start` on, over the table `t`.
abbrev pub overlay : Tables → List ℕ → ℕ → ℕ → ℕ
overlay t pas start v =
    if ltb (v / page_size) (start / page_size)
    then entry t v
    else elim (get_elem? pas (v / page_size - start / page_size)) [
      | some pa ↦ bit_or pa flags_cache % u32_mod
      | none ↦ entry t v
    ]

get_elem?-cons :
    (x : ℕ) (xs : List ℕ) (i : ℕ)
    → get_elem? (x ∷ xs) i ≡ (if i == 0 then some x else get_elem? xs (i - 1))
get_elem?-cons x xs zero = refl
get_elem?-cons x xs (suc i) = ground arith

-- A loop that ends has mapped every page, each at its place, and nothing else.
pub map_pages-overlay :
    (pas : List ℕ) (t : Tables) (d : Dma) (base offset v : ℕ)
    → (base + offset) % page_size ≡ 0
    → base + offset + length pas * page_size ≤ u32_mod
    → v < u32_mod
    → (map_pages t d pas base offset).0 ≡ success
    → entry (map_pages t d pas base offset).2 v ≡ overlay t pas (base + offset) v
unfolding map_pages
map_pages-overlay [] t d base offset v al fits hv h = ground arith
map_pages-overlay (pa ∷ pas) t d base offset v al fits hv h =
    elim (Result-cases (map_page t d pa ((base + offset) % u32_mod)).0) [
      | inl (u, e) ↦
          let at : ℕ = (base + offset) % u32_mod in
          let e' : (map_page t d pa at).0 ≡ success = ground arith in
          ground (
            arith,
            get_elem?-cons pa pas (v / page_size - (base + offset) / page_size),
            entry-map_page t d pa at v (omega arith) hv e',
            map_pages-overlay pas (map_page t d pa at).1 (map_page t d pa at).2 base
                (offset + page_size) v (omega arith) (omega arith) hv,
          )
      | inr (x, e) ↦ ground arith
    ]

module _ (base : ℕ) where
  -- What `undo_pages` leaves.
  pub record Undone (t t'' : Tables) (d : Dma) (off : ℕ) : Type 0 where
    pub reads :
        (v : ℕ)
        → v < u32_mod
        → entry t'' v ≡ (if in_pages base (base + off - 1) v && ltb 0 off then 0 else entry t v)
    pub walkable : IsBus d → IsWalkable t → IsWalkable t''

  -- Where the loop stops.
  pub map_pages_stop :
      (pas : List ℕ) (t : Tables) (d : Dma) (offset : ℕ)
      → let off = (map_pages t d pas base offset).1 in
        (off % page_size ≡ offset % page_size)
        × (offset ≤ off)
        × (off ≤ offset + length pas * page_size)
  unfolding map_pages
  map_pages_stop [] t d offset = omega arith
  map_pages_stop (pa ∷ pas) t d offset =
      let at : ℕ = (base + offset) % u32_mod in
      ground (
        arith,
        map_pages_stop pas (map_page t d pa at).1 (map_page t d pa at).2 (offset + page_size),
      )

  -- A loop that stops with an error has not mapped the last page.
  pub map_pages_err_stop :
      (pas : List ℕ) (t : Tables) (d : Dma) (offset : ℕ) (e : Errno)
      → (map_pages t d pas base offset).0 ≡ err e
      → (map_pages t d pas base offset).1 + page_size ≤ offset + length pas * page_size
  unfolding map_pages
  map_pages_err_stop [] t d offset e h = ground arith
  map_pages_err_stop (pa ∷ pas) t d offset e h =
      let at : ℕ = (base + offset) % u32_mod in
      ground (
        arith,
        map_pages_err_stop pas (map_page t d pa at).1 (map_page t d pa at).2 (offset + page_size) e,
      )

  -- What it has not reached reads as before.
  pub map_pages_outside :
      (pas : List ℕ) (t : Tables) (d : Dma) (offset v : ℕ)
      → (base + offset) % page_size ≡ 0
      → base + offset + length pas * page_size ≤ u32_mod
      → v < u32_mod
      → in_pages (base + offset) (base + (map_pages t d pas base offset).1 - 1) v ≡ false
        ⊎ ((map_pages t d pas base offset).1 ≡ offset)
      → entry (map_pages t d pas base offset).2 v ≡ entry t v
  unfolding map_pages
  map_pages_outside [] t d offset v al fits hv out = refl
  map_pages_outside (pa ∷ pas) t d offset v al fits hv out =
      elim (Result-cases (map_page t d pa ((base + offset) % u32_mod)).0) [
        | inl (u, e) ↦
            let at : ℕ = (base + offset) % u32_mod in
            let e' : (map_page t d pa at).0 ≡ success = ground arith in
            ground (
              arith,
              entry-map_page t d pa at v (omega arith) hv e',
              map_pages_stop pas (map_page t d pa at).1 (map_page t d pa at).2 (offset + page_size),
              map_pages_outside pas (map_page t d pa at).1 (map_page t d pa at).2
                  (offset + page_size) v (omega arith) (omega arith) hv,
            )
        | inr (x, e) ↦ ground (arith, map_page_err t d pa ((base + offset) % u32_mod) x e)
      ]

  pub map_pages_grows :
      (pas : List ℕ) (t : Tables) (d : Dma) (offset s : ℕ)
      → is_some (t.bts s) ≡ true
      → is_some ((map_pages t d pas base offset).2.bts s) ≡ true
  unfolding map_pages
  map_pages_grows [] t d offset s h = h
  map_pages_grows (pa ∷ pas) t d offset s h =
      let at : ℕ = (base + offset) % u32_mod in
      ground (
        arith,
        map_page_grows t d pa at s h,
        map_pages_grows pas (map_page t d pa at).1 (map_page t d pa at).2 (offset + page_size) s,
      )

  pub map_pages_ok_stop :
      (pas : List ℕ) (t : Tables) (d : Dma) (offset : ℕ)
      → (map_pages t d pas base offset).0 ≡ success
      → (map_pages t d pas base offset).1 ≡ offset + length pas * page_size
  unfolding map_pages
  map_pages_ok_stop [] t d offset h = omega arith
  map_pages_ok_stop (pa ∷ pas) t d offset h =
      let at : ℕ = (base + offset) % u32_mod in
      ground (
        arith,
        map_pages_ok_stop pas (map_page t d pa at).1 (map_page t d pa at).2 (offset + page_size),
      )

  -- What it has reached has a backing table.
  pub map_pages_backs :
      (pas : List ℕ) (t : Tables) (d : Dma) (offset a : ℕ)
      → (base + offset) % page_size ≡ 0
      → base + offset + length pas * page_size ≤ u32_mod
      → base + offset ≤ a
      → a < base + (map_pages t d pas base offset).1
      → is_some ((map_pages t d pas base offset).2.bts (pbe a)) ≡ true
  unfolding map_pages
  map_pages_backs [] t d offset a al fits lo hi = absurd (omega arith)
  map_pages_backs (pa ∷ pas) t d offset a al fits lo hi =
      elim (Result-cases (map_page t d pa ((base + offset) % u32_mod)).0) [
        | inl (u, e) ↦
            let at : ℕ = (base + offset) % u32_mod in
            let e' : (map_page t d pa at).0 ≡ success = ground arith in
            ground (
              arith,
              slot_of_page a at,
              map_page_backs t d pa at e',
              map_pages_grows pas (map_page t d pa at).1 (map_page t d pa at).2 (offset + page_size)
                  (pbe a),
              map_pages_backs pas (map_page t d pa at).1 (map_page t d pa at).2 (offset + page_size)
                  a,
            )
        | inr (x, e) ↦ absurd (ground arith)
      ]

  pub map_pages-IsWalkable :
      (pas : List ℕ) (t : Tables) (d : Dma) (offset : ℕ)
      → IsBus d
      → IsWalkable t
      → IsWalkable (map_pages t d pas base offset).2
  unfolding map_pages
  map_pages-IsWalkable [] t d offset b w = w
  map_pages-IsWalkable (pa ∷ pas) t d offset b w =
      elim (Result-cases (map_page t d pa ((base + offset) % u32_mod)).0) [
        | inl (u, e) ↦
            let at : ℕ = (base + offset) % u32_mod in
            rw (e, map_pages)
              (map_pages-IsWalkable pas (map_page t d pa at).1 (map_page t d pa at).2
                (offset + page_size) (rw bus-map_page b) (map_page-IsWalkable t d pa at b w))
        | inr (x, e) ↦
            rw (e, map_pages) (map_page-IsWalkable t d pa ((base + offset) % u32_mod) b w)
      ]

  pub map_pages_ok_backs :
      (pas : List ℕ) (t : Tables) (d : Dma) (a : ℕ)
      → base % page_size ≡ 0
      → base + length pas * page_size ≤ u32_mod
      → (map_pages t d pas base 0).0 ≡ success
      → base ≤ a
      → a < base + length pas * page_size
      → is_some ((map_pages t d pas base 0).2.bts (pbe a)) ≡ true
  map_pages_ok_backs pas t d a al fits h lo hi =
      map_pages_backs pas t d 0 a (omega arith) (omega arith) (omega arith)
        (omega (arith, map_pages_ok_stop pas t d 0 h))
