-- ===== src/Shmem/Object/Counts.antt =====
-- drm_gem_shmem_get_pages and drm_gem_shmem_put_pages: the count, the array and the wirings go
-- together.
use lima_freebsd.Base.{
  ℕ, zero, suc, ◌+◌, ◌<◌, ◌≡◌, refl, Option, none, some, arith, true, false, ltb, if◌then◌else◌,
  Result-cases, Option-cases, inl, inr, ok, err, Status, is_some, done,
}
use lima_freebsd.Shmem.Logic.{uint_mod}
use lima_freebsd.Shmem.Pages.{Memory, Kernel, Entries, get_backing, put_backing, set_memattr}
use lima_freebsd.Shmem.Pages.Laws.{
  uses, get_backing_wires, put_backing_wires, put_backing_combining, set_memattr_wires,
  set_memattr_combining,
}
use lima_freebsd.Shmem.Object.{Object, get_pages, put_pages, release_pages}

is_some_elim {ℓ} : {A : Type ℓ} {o : Option A} → is_some o ≡ true → (a : A) × (o ≡ some a)
is_some_elim {o} h = ground arith

abbrev pub page_uses : ℕ → Option Entries → ℕ
page_uses p none = 0
page_uses p (some es) = uses p es

-- `users` is the number of holders of the pages, and `base` the wirings that others have. The count
-- is that number, the array is there exactly while someone holds it, and each page is wired once for
-- each place in it.
pub record Consistent (base : ℕ → ℕ) (users : ℕ) (o : Object) (s : Memory) : Type 0 where
  pub counted : o.pages_use_count ≡ users
  pub present : is_some o.pages ≡ ltb 0 users
  pub wired : (p : ℕ) → s.wires p ≡ base p + page_uses p o.pages

-- All but the pages and their count.
pub record SameRest (o o' : Object) : Type 0 where
  pub vmap_use_count : o'.vmap_use_count ≡ o.vmap_use_count
  pub vaddr : o'.vaddr ≡ o.vaddr
  pub sgt : o'.sgt ≡ o.sgt
  pub imported : o'.imported ≡ o.imported

abbrev pub holders : Status → ℕ → ℕ
holders (ok u) users = suc users
holders (err e) users = users

-- A call that succeeds adds a holder; one that fails leaves the object without pages, and no page
-- wired for it.
pub get_pages-Consistent :
    (base : ℕ → ℕ) (users : ℕ) (k : Kernel) (o : Object) (s : Memory)
    → users + 1 < uint_mod
    → Consistent base users o s
    → let (r, o', s') = get_pages k o s in Consistent base (holders r users) o' s' × SameRest o o'
unfolding get_pages
get_pages-Consistent base users k o s room c = elim (Result-cases (get_backing k o.size s).0) [
  | inl (es, e) ↦ (
    record {
      counted = ground (arith, c.counted, c.present);
      present = ground (arith, c.counted, c.present);
      wired = λ p. ground (
        arith,
        c.counted,
        c.present,
        c.wired p,
        get_backing_wires k o.size s p,
        set_memattr_wires true es (get_backing k o.size s).1,
        Option-cases o.pages,
      );
    },
    ground arith,
  )
  | inr (x, e) ↦ (
    record {
      counted = ground (arith, c.counted, c.present);
      present = ground (arith, c.counted, c.present);
      wired = λ p. ground (arith, c.counted, c.present, c.wired p, get_backing_wires k o.size s p);
    },
    ground arith,
  )
]

pub put_pages-Consistent :
    (base : ℕ → ℕ) (users : ℕ) (o : Object) (s : Memory)
    → Consistent base (suc users) o s
    → (o' : Object) × (s' : Memory) × (put_pages o s ≡ done (o', s'))
      × Consistent base users o' s'
      × SameRest o o'
unfolding put_pages release_pages
put_pages-Consistent base zero o s c =
    let (es, e) = is_some_elim (c.present) in
    (
      record o { pages_use_count = 0; pages = none },
      put_backing o.size es o.mark_dirty o.mark_accessed
          (if o.map_wc then set_memattr false es s else s),
      ground (arith, c.counted),
      record {
        counted = refl;
        present = refl;
        wired = λ p. ground (
          arith,
          c.wired p,
          set_memattr_wires false es s,
          put_backing_wires o.size es o.mark_dirty o.mark_accessed
              (if o.map_wc then set_memattr false es s else s) p,
        );
      },
      ground arith,
    )
put_pages-Consistent base (suc n) o s c = (
  record o { pages_use_count = suc n },
  s,
  ground (arith, c.counted),
  record { counted = refl; present = ground (arith, c.present); wired = c.wired },
  ground arith,
)

-- Dropping the last reference of a write-combined object returns, and leaves a page of its array with
-- the default cache attribute and with the wirings that others have.
pub put_pages_default :
    (base : ℕ → ℕ) (o : Object) (s : Memory) (es : Entries) (p : ℕ)
    → Consistent base 1 o s
    → o.pages ≡ some es
    → o.map_wc ≡ true
    → 0 < uses p es
    → (o' : Object) × (s' : Memory) × (put_pages o s ≡ done (o', s'))
      × (s'.combining p ≡ false)
      × (s'.wires p ≡ base p)
unfolding put_pages release_pages
put_pages_default base o s es p c e wc h = (
  record o { pages_use_count = 0; pages = none },
  put_backing o.size es o.mark_dirty o.mark_accessed (set_memattr false es s),
  ground (arith, c.counted),
  ground (
    arith,
    set_memattr_combining false es s p,
    put_backing_combining o.size es o.mark_dirty o.mark_accessed (set_memattr false es s),
  ),
  ground (
    arith,
    c.wired p,
    set_memattr_wires false es s,
    put_backing_wires o.size es o.mark_dirty o.mark_accessed (set_memattr false es s) p,
  ),
)
