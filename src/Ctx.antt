-- ===== src/Ctx.antt =====
-- lima_ctx.c: rendering contexts, which live as long as a handle or a job refers to them. The
-- XArray of handles is the section's parameter; `mgr->lock` is not modelled, each call is one step. A
-- context is named by its address.
pub mod Handles
pub mod Refs
pub mod Table
mod Tests
use lima_freebsd.Base.{
  ℕ, zero, suc, ◌+◌, ◌-◌, List, [], ◌∷◌, Option, none, some, Bool, true, false, ◌==◌, if◌then◌else◌,
  update, Errno, enomem, einval, Result, ok, err, Status, success, Run, done, fault, and_then,
}
use lima_freebsd.Ctx.Handles.{Xa}

-- `enum lima_pipe_id`: GP and PP.
abbrev pub pipe_num : ℕ
pipe_num = 2

-- `refcnt` of each context that is allocated, and whether its scheduler context of a pipe is
-- initialised.
pub record Contexts : Type 0 where
  pub refcnt : ℕ → Option ℕ
  pub entity : ℕ → ℕ → Bool

abbrev pub set_entity : ℕ → ℕ → Bool → Contexts → Contexts
set_entity ctx pipe b h = record h { entity = update h.entity ctx (update (h.entity ctx) pipe b) }

-- `for (i--; i >= 0; i--) lima_sched_context_fini(...)`, from `i = n`.
unfoldable pub fini_below : ℕ → ℕ → Contexts → Contexts
fini_below ctx zero h = h
fini_below ctx (suc i) h = fini_below ctx i (set_entity ctx i false h)

-- `for (i = 0; i < lima_pipe_num; i++)` with lima_sched_context_init, whose answers are `init`: the
-- status, and `i` where it stopped.
unfoldable pub init_pipes : (ℕ → Status) → ℕ → ℕ → ℕ → Contexts → Status × ℕ × Contexts
init_pipes init ctx zero i h = (success, i, h)
init_pipes init ctx (suc n) i h =
    let rest = init_pipes init ctx n (i + 1) (set_entity ctx i true h) in
    elim (init i) [ err e ↦ (err e, i, h) | ok u ↦ rest ]

-- `for (i = 0; i < lima_pipe_num; i++) lima_sched_context_fini(...)`
unfoldable pub fini_pipes : ℕ → ℕ → ℕ → Contexts → Contexts
fini_pipes ctx zero i h = h
fini_pipes ctx (suc n) i h = fini_pipes ctx n (i + 1) (set_entity ctx i false h)

unfoldable pub do_release : ℕ → Contexts → Contexts
unfolding fini_pipes
do_release ctx h =
    let h' = fini_pipes ctx pipe_num 0 h in record h' { refcnt = update h'.refcnt ctx none }

-- `kref_put`, which touches a context that must still be there.
unfoldable pub put : ℕ → Contexts → Run Contexts
put ctx h = elim (h.refcnt ctx) [
  | none ↦ fault
  | some n ↦
      if n - 1 == 0
      then done (do_release ctx h)
      else done (record h { refcnt = update h.refcnt ctx (some (n - 1)) })
]

-- `err_out0`
abbrev pub err_out0 : ℕ → ℕ → Contexts → Contexts
err_out0 ctx i h = let h' = fini_below ctx i h in record h' { refcnt = update h'.refcnt ctx none }

-- `xa_for_each` over the entries, with kref_put
unfoldable pub put_all : List ℕ → Contexts → Run Contexts
put_all [] h = done h
put_all (ctx ∷ cs) h = and_then (put ctx h) (put_all cs)

module _ (x : Xa) where
  -- The context that the second half of lima_ctx_create enters in the table.
  unfoldable pub enter : ℕ → x.Table → Contexts → Result ℕ × x.Table × Contexts
  unfolding fini_below
  enter ctx t h = elim (x.alloc t ctx) [
    | err e ↦ (err e, t, err_out0 ctx pipe_num h)
    | ok (id, t') ↦ (ok id, t', h)
  ]

  -- From the outcome of the loop on.
  unfoldable pub finish : ℕ → x.Table → Status × ℕ × Contexts → Result ℕ × x.Table × Contexts
  unfolding fini_below
  finish ctx t (err e, i, h) = (err e, t, err_out0 ctx i h)
  finish ctx t (ok u, i, h) = enter ctx t h

  -- `kzalloc` is the address that it returns; the result is the handle.
  unfoldable pub create :
      Option ℕ → (ℕ → Status) → x.Table → Contexts → Result ℕ × x.Table × Contexts
  unfolding init_pipes
  create none init t h = (err enomem, t, h)
  create (some ctx) init t h =
      finish ctx t
        (init_pipes init ctx pipe_num 0 (record h { refcnt = update h.refcnt ctx (some 1) }))

  unfoldable pub free : x.Table → ℕ → Contexts → Run (Status × x.Table × Contexts)
  free t id h = elim (x.load t id) [
    | none ↦ done (err einval, x.erase t id, h)
    | some ctx ↦ and_then (put ctx h) λ h'. done (success, x.erase t id, h')
  ]

  unfoldable pub get : x.Table → ℕ → Contexts → Run (Option ℕ × Contexts)
  get t id h = elim (x.load t id) [
    | none ↦ done (none, h)
    | some ctx ↦ elim (h.refcnt ctx) [
      | none ↦ fault
      | some n ↦ done (some ctx, record h { refcnt = update h.refcnt ctx (some (n + 1)) })
    ]
  ]

  unfoldable pub mgr_fini : x.Table → Contexts → Run Contexts
  mgr_fini t h = put_all (x.values t) h
