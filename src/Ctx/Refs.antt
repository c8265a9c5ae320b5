-- ===== src/Ctx/Refs.antt =====
-- Every reference to a context is counted: a context is there exactly while a handle or a caller
-- refers to it, and its count is the number of those.
use lima_freebsd.Base.{
  ℕ, zero, suc, ◌+◌, ◌-◌, ◌<◌, ◌≤◌, ◌≡◌, refl, none, some, arith, true, ◌==◌, ltb, if◌then◌else◌,
  update, Result-cases, Bool-cases, inl, inr, ◌⊎◌, Errno, err, Status, success, done,
}
use lima_freebsd.Ctx.{
  Contexts, pipe_num, set_entity, fini_below, init_pipes, fini_pipes, do_release, put, err_out0,
}

-- `refs` says how many references there are to each context. Both scheduler contexts are initialised
-- exactly while the context is there.
pub record Counted (refs : ℕ → ℕ) (h : Contexts) : Type 0 where
  pub count_of : (c : ℕ) → h.refcnt c ≡ (if refs c == 0 then none else some (refs c))
  pub entities : (c p : ℕ) → p < pipe_num → h.entity c p ≡ ltb 0 (refs c)

-- One reference more, or one less.
abbrev pub plus : ℕ → (ℕ → ℕ) → ℕ → ℕ
plus c refs = update refs c (refs c + 1)

abbrev pub minus : ℕ → (ℕ → ℕ) → ℕ → ℕ
minus c refs = update refs c (refs c - 1)

pub put-Counted :
    (refs : ℕ → ℕ) (c : ℕ) (h : Contexts)
    → 0 < refs c
    → Counted refs h
    → (h' : Contexts) × (put c h ≡ done h') × Counted (minus c refs) h'
unfolding put do_release fini_pipes
put-Counted refs c h held k = elim (Bool-cases (refs c - 1 == 0)) [
  | inl last ↦ (
    do_release c h,
    ground (arith, k.count_of c),
    record {
      count_of = λ v. ground (arith, k.count_of v);
      entities = λ v p small. ground (arith, k.entities v p small);
    },
  )
  | inr more ↦ (
    record h { refcnt = update h.refcnt c (some (refs c - 1)) },
    ground (arith, k.count_of c),
    record {
      count_of = λ v. ground (arith, k.count_of v);
      entities = λ v p small. ground (arith, k.entities v p small);
    },
  )
]

pub absent : (refs : ℕ → ℕ) (h : Contexts) (c : ℕ) → Counted refs h → h.refcnt c ≡ none → refs c ≡ 0
absent refs h c k e = ground (arith, k.count_of c)

pub present :
    (refs : ℕ → ℕ) (h : Contexts) (c : ℕ) → Counted refs h → 0 < refs c → h.refcnt c ≡ some (refs c)
present refs h c k p = ground (arith, k.count_of c)

-- The new context with the scheduler contexts of the pipes below `i` initialised.
abbrev pub started : ℕ → ℕ → Contexts → Contexts
started c zero h = record h { refcnt = update h.refcnt c (some 1) }
started c (suc i) h = set_entity c i true (started c i h)

-- A context given up at any point of its initialisation leaves nothing behind.
pub err_out0-Counted :
    (refs : ℕ → ℕ) (c i : ℕ) (h : Contexts)
    → Counted refs h
    → refs c ≡ 0
    → i ≤ pipe_num
    → Counted refs (err_out0 c i (started c i h))
unfolding fini_below
err_out0-Counted refs c zero h k z le = record {
  count_of = λ v. ground (arith, k.count_of v, z);
  entities = λ v p small. ground (arith, k.entities v p small, z);
}
err_out0-Counted refs c (suc zero) h k z le = record {
  count_of = λ v. ground (arith, k.count_of v, z);
  entities = λ v p small. ground (arith, k.entities v p small, z);
}
err_out0-Counted refs c (suc (suc zero)) h k z le = record {
  count_of = λ v. ground (arith, k.count_of v, z);
  entities = λ v p small. ground (arith, k.entities v p small, z);
}
err_out0-Counted refs c (suc (suc (suc n))) h k z le = absurd (omega arith)

pub started-Counted :
    (refs : ℕ → ℕ) (c : ℕ) (h : Contexts)
    → Counted refs h
    → refs c ≡ 0
    → Counted (plus c refs) (started c pipe_num h)
started-Counted refs c h k z = record {
  count_of = λ v. ground (arith, k.count_of v, z);
  entities = λ v p small. ground (arith, k.entities v p small, z);
}

-- The three ways through the loop over the pipes.
pub init_pipes-cases :
    (init : ℕ → Status) (c : ℕ) (h : Contexts)
    → (init_pipes init c pipe_num 0 (started c 0 h) ≡ (success, pipe_num, started c pipe_num h))
      ⊎ ((e : Errno) × (i : ℕ) × (i < pipe_num)
          × (init_pipes init c pipe_num 0 (started c 0 h) ≡ (err e, i, started c i h)))
unfolding init_pipes
init_pipes-cases init c h = elim (Result-cases (init 0)) [
  | inr (e, f) ↦ inr (e, 0, omega arith, rw f refl)
  | inl (u, f) ↦ elim (Result-cases (init 1)) [
    | inr (e, g) ↦ inr (e, 1, omega arith, rw (f, g) refl)
    | inl (w, g) ↦ inl (rw (f, g) refl)
  ]
]
