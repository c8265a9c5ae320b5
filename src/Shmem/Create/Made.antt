-- ===== src/Shmem/Create/Made.antt =====
-- __drm_gem_shmem_create gives back what it took where it fails.
use lima_freebsd.Base.{
  ℕ, suc, ◌+◌, ◌≡◌, refl, none, Bool, false, arith, inl, inr, Result-cases, Bool-cases, Result, ok,
  err, success, if◌then◌else◌,
}
use lima_freebsd.Shmem.Object.{Object}
use lima_freebsd.Shmem.Create.{Ledger, create}

-- There are `n` objects more than when the ledger was even.
pub record Even (n : ℕ) (l : Ledger) : Type 0 where
  pub allocated : l.allocs ≡ l.frees + n
  pub set_up : l.inits ≡ l.releases + n

-- What comes of __drm_gem_shmem_create.
abbrev pub Made : ℕ → Result Object → Ledger → Type 0
Made n (err e) l = Even n l
Made n (ok o) l =
    Even (suc n) l
    × (o.imported ≡ false)
    × (o.pages ≡ none)
    × (o.pages_use_count ≡ 0)
    × (o.sgt ≡ none)

even : {n : ℕ} {l : Ledger} → l.allocs ≡ l.frees + n → l.inits ≡ l.releases + n → Even n l
even a b = record { allocated = a; set_up = b }

pub create-Made :
    (private : Bool) (a : lima_freebsd.Shmem.Create.Answers) (size n : ℕ) (l : Ledger)
    → Even n l
    → let (r, l') = create private a size l in Made n r l'
unfolding create
create-Made private a size n l h = elim (Bool-cases a.kzalloc) [
  | inr e ↦ rw (e, create) h
  | inl e ↦ elim (Result-cases (if private then success else a.init)) [
    | inr (x, f) ↦
        rw (e, create) (rw f (even (omega (arith, h.allocated)) (omega (arith, h.set_up))))
    | inl (u, f) ↦ elim (Result-cases a.mmap_offset) [
      | inr (x, g) ↦
          rw (e, create) (rw f (rw g (even (omega (arith, h.allocated)) (omega (arith, h.set_up)))))
      | inl (v, g) ↦
          rw (e, create)
            (rw f (
              rw g (
                even (omega (arith, h.allocated)) (omega (arith, h.set_up)),
                refl,
                refl,
                refl,
                refl,
              )))
    ]
  ]
]
