-- ===== src/Ctx/Table.antt =====
-- The handle table: each call keeps the count of every context equal to the handles and the callers
-- that refer to it, and none touches a context that is gone.
use lima_freebsd.Base.{
  times, ℕ, ◌+◌, ◌<◌, ◌≡◌, refl, sym, ap, subst, List, [], ◌∷◌, Option, none, some, arith, update,
  Option-cases, Result-cases, inl, inr, enomem, einval, Result, ok, err, Status, success, done,
  fun_ext,
}
use lima_freebsd.Ctx.Handles.{Xa, XaLaws}
use lima_freebsd.Ctx.{
  Contexts, pipe_num, put, err_out0, enter, finish, create, free, get, put_all, mgr_fini,
}
use lima_freebsd.Ctx.Refs.{
  Counted, plus, minus, put-Counted, absent, present, started, err_out0-Counted, started-Counted,
  init_pipes-cases,
}

module _ (x : Xa) where
  -- The references of the table and of the callers together.
  abbrev pub refs : x.Table → (ℕ → ℕ) → ℕ → ℕ
  refs t held c = times c (x.values t) + held c

  abbrev pub Valid : x.Table → (ℕ → ℕ) → Contexts → Type 0
  Valid t held h = Counted (refs t held) h

  same_refs : {a b : ℕ → ℕ} {h : Contexts} → ((c : ℕ) → a c ≡ b c) → Counted a h → Counted b h
  same_refs {h} e k = subst (λ f. Counted f h) (fun_ext e) k

  -- A failed call leaves the table and every count as they were; one that succeeds enters the new
  -- context, with the one reference that its handle is.
  abbrev pub CreatePost : x.Table → (ℕ → ℕ) → Option ℕ → Result ℕ → x.Table → Contexts → Type 0
  CreatePost t held ctx (err e) t' h' = (t' ≡ t) × Valid t held h'
  CreatePost t held ctx (ok id) t' h' = (x.load t' id ≡ ctx) × Valid t' held h'

  -- For a call that comes to `p`.
  comes_to :
      (t : x.Table) (held : ℕ → ℕ) (ctx : Option ℕ) {p q : Result ℕ × x.Table × Contexts}
      → p ≡ q
      → CreatePost t held ctx q.0 q.1 q.2
      → CreatePost t held ctx p.0 p.1 p.2
  comes_to t held ctx e post = subst (λ q. CreatePost t held ctx q.0 q.1 q.2) (sym e) post

  enter-Valid :
      (t : x.Table) (held : ℕ → ℕ) (c : ℕ) (h : Contexts)
      → XaLaws x
      → Valid t held h
      → refs t held c ≡ 0
      → let (r, t', h') = enter x c t (started c pipe_num h) in CreatePost t held (some c) r t' h'
  enter-Valid t held c h laws k z = elim (Result-cases (x.alloc t c)) [
    | inr (e, f) ↦
        comes_to t held (some c) {q = (err e, t, err_out0 c pipe_num (started c pipe_num h))}
          (unfold enter in rw (f, enter))
          (refl, err_out0-Counted (refs t held) c pipe_num h k z (omega arith))
    | inl ((id, t'), f) ↦
        comes_to t held (some c) {q = (ok id, t', started c pipe_num h)}
          (unfold enter in rw (f, enter))
          (
            laws.alloc_load t t' c id f,
            same_refs (λ v. ground (arith, laws.alloc_adds t t' c id v f))
                (started-Counted (refs t held) c h k z),
          )
  ]

  -- lima_ctx_create, given memory that no context occupies, keeps the counts: if it fails, at whatever
  -- point, the table and every reference are as they were and nothing is left initialised; if it
  -- succeeds, the handle that it returns finds the new context, whose one reference is that handle.
  pub create-Valid :
      (ctx : Option ℕ) (init : ℕ → Status) (t : x.Table) (held : ℕ → ℕ) (h : Contexts)
      → XaLaws x
      → ((c : ℕ) → ctx ≡ some c → h.refcnt c ≡ none)
      → Valid t held h
      → let (r, t', h') = create x ctx init t h in CreatePost t held ctx r t' h'
  create-Valid none init t held h laws fresh k =
      comes_to t held none {q = (err enomem, t, h)} (unfold create in refl) (refl, k)
  create-Valid (some c) init t held h laws fresh k =
      let z = absent (refs t held) h c k (fresh c refl) in
      elim (init_pipes-cases init c h) [
        | inl f ↦
            comes_to t held (some c) {q = enter x c t (started c pipe_num h)}
              (unfold create finish in ap (finish x c t) f) (enter-Valid t held c h laws k z)
        | inr (e, i, low, f) ↦
            comes_to t held (some c) {q = (err e, t, err_out0 c i (started c i h))}
              (unfold create finish in ap (finish x c t) f)
              (refl, err_out0-Counted (refs t held) c i h k z (omega (arith, low)))
      ]

  -- lima_ctx_free returns, touching no context that is gone, and keeps the counts: a handle that is
  -- found goes, and its reference with it; one that is not changes no count.
  pub free-Valid :
      (t : x.Table) (id : ℕ) (held : ℕ → ℕ) (h : Contexts)
      → XaLaws x
      → Valid t held h
      → (r : Status) × (h' : Contexts) × (free x t id h ≡ done (r, x.erase t id, h'))
        × Valid (x.erase t id) held h'
  free-Valid t id held h laws k = elim (Option-cases (x.load t id)) [
    | inl f ↦ (
      err einval,
      h,
      unfold free in rw (f, free),
      same_refs (λ v. omega (arith, laws.erase_absent t id v f)) k,
    )
    | inr (c, f) ↦
        let (h', run, k') =
          put-Counted (refs t held) c h (omega (arith, laws.load_held t c id f)) k in
        (
          success,
          h',
          unfold free in rw (f, run, free),
          same_refs (λ v. ground (arith, laws.erase_drops t c id v f)) k',
        )
  ]

  abbrev pub GetPost : x.Table → (ℕ → ℕ) → Option ℕ → Contexts → Type 0
  GetPost t held none h' = Valid t held h'
  GetPost t held (some c) h' = Valid t (plus c held) h'

  -- lima_ctx_get returns what the table holds, touching no context that is gone, and keeps the counts:
  -- a context that it finds has one reference more, the caller's.
  pub get-Valid :
      (t : x.Table) (id : ℕ) (held : ℕ → ℕ) (h : Contexts)
      → XaLaws x
      → Valid t held h
      → (h' : Contexts) × (get x t id h ≡ done (x.load t id, h')) × GetPost t held (x.load t id) h'
  get-Valid t id held h laws k = elim (Option-cases (x.load t id)) [
    | inl f ↦ (h, unfold get in rw (f, get), rw f k)
    | inr (c, f) ↦
        let n = refs t held c in
        let here = present (refs t held) h c k (omega (arith, laws.load_held t c id f)) in
        (
          record h { refcnt = update h.refcnt c (some (n + 1)) },
          unfold get in rw (f, here, get),
          rw f (record {
            count_of = λ v. ground (arith, k.count_of v);
            entities = λ v p small. ground (arith, k.entities v p small, laws.load_held t c id f);
          }),
        )
  ]

  -- lima_ctx_put, by a caller that holds a reference, touches a context that is there, and keeps the
  -- counts: the caller has one reference less.
  pub put-Valid :
      (t : x.Table) (c : ℕ) (held : ℕ → ℕ) (h : Contexts)
      → 0 < held c
      → Valid t held h
      → (h' : Contexts) × (put c h ≡ done h') × Valid t (minus c held) h'
  put-Valid t c held h p k =
      let (h', run, k') = put-Counted (refs t held) c h (omega (arith, p)) k in
      (h', run, same_refs (λ v. ground (arith, p)) k')

  put_all-Counted :
      (cs : List ℕ) (held : ℕ → ℕ) (h : Contexts)
      → Counted (λ c. times c cs + held c) h
      → (h' : Contexts) × (put_all cs h ≡ done h') × Counted held h'
  unfolding put_all times
  put_all-Counted [] held h k = (h, refl, same_refs (λ c. omega arith) k)
  put_all-Counted (c ∷ cs) held h k =
      let (h', run, k') = put-Counted (λ v. times v (c ∷ cs) + held v) c h (ground arith) k in
      let (h'', runs, k'') = put_all-Counted cs held h' (same_refs (λ v. ground arith) k') in
      (h'', rw run runs, k'')

  -- lima_ctx_mgr_fini returns, touching no context that is gone, and leaves exactly the contexts that
  -- callers still refer to, each counting those references and no other.
  pub mgr_fini-Valid :
      (t : x.Table) (held : ℕ → ℕ) (h : Contexts)
      → Valid t held h
      → (h' : Contexts) × (mgr_fini x t h ≡ done h') × Counted held h'
  unfolding mgr_fini
  mgr_fini-Valid t held h k = put_all-Counted (x.values t) held h k
