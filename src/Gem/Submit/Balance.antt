-- ===== src/Gem/Submit/Balance.antt =====
-- A submission takes what the queued task holds, and nothing if it fails; the end of the task gives
-- it back.
use lima_freebsd.Base.{
  times, ℕ, ◌+◌, ◌<◌, ◌≡◌, refl, sym, ap, ◌∙◌, subst, List, [], length, Bool, true, false, arith,
  Bool-cases, Result-cases, Option-cases, inl, inr, enoent, enomem, ok, err, Status, success,
}
use lima_freebsd.Gem.Submit.{
  u32_mod, Refs, Answers, get_all, put_all, lookup_all, unwind_all, task_init, task_fini, add_deps,
  sync_bos, sync_get, sync_put, err_out0, err_out2, queue, after_init, submit_bos, submit,
  is_missing,
}
use lima_freebsd.Gem.Submit.Loops.{
  Took, get_all-Took, put_all-Gave, unwind_all-Gave, lookup_all-Took,
}

-- Every count is as before.
pub record Restored (s s' : Refs) : Type 0 where
  pub objects : (c : ℕ) → s'.obj c ≡ s.obj c
  pub mappings : (c : ℕ) → s'.va c ≡ s.va c
  pub same_vm : s'.vm ≡ s.vm
  pub same_sync : s'.sync ≡ s.sync

-- What a queued task holds: both references of each of its buffers, and one of the address space.
pub record Holds (bs : List ℕ) (s s' : Refs) : Type 0 where
  pub objects : (c : ℕ) → s'.obj c ≡ s.obj c + times c bs
  pub mappings : (c : ℕ) → s'.va c ≡ s.va c + times c bs
  pub more_vm : s'.vm ≡ s.vm + 1
  pub same_sync : s'.sync ≡ s.sync

abbrev pub SubmitPost : Refs → Status → List ℕ → Refs → Type 0
SubmitPost s (ok u) bs s' = Holds bs s s'
SubmitPost s (err e) bs s' = Restored s s'

-- For a call that comes to `q`.
comes_to :
    (s : Refs) {p q : Status × List ℕ × Refs}
    → p ≡ q
    → SubmitPost s q.0 q.1 q.2
    → SubmitPost s p.0 p.1 p.2
comes_to s e post = subst (λ q. SubmitPost s q.0 q.1 q.2) (sym e) post

err_out0-Restored :
    (a : Answers) (bs : List ℕ) (s s' : Refs)
    → Took bs bs (sync_get a.out_sync s) s'
    → Restored s (sync_put a.out_sync (unwind_all bs s'))
err_out0-Restored a bs s s' t = elim (Option-cases a.out_sync) [
  | inl f ↦
      let g = unwind_all-Gave bs s' in
      rw f (record {
        objects = λ c. ground (arith, f, t.objects c, g.objects c);
        mappings = λ c. ground (arith, f, t.mappings c, g.mappings c);
        same_vm = ground (arith, f, t.same_vm, g.same_vm);
        same_sync = ground (arith, f, t.same_sync, g.same_sync);
      })
  | inr (b, f) ↦
      let g = unwind_all-Gave bs s' in
      rw f (record {
        objects = λ c. ground (arith, f, t.objects c, g.objects c);
        mappings = λ c. ground (arith, f, t.mappings c, g.mappings c);
        same_vm = ground (arith, f, t.same_vm, g.same_vm);
        same_sync = ground (arith, f, t.same_sync, g.same_sync);
      })
]

-- The state that task_init leaves.
abbrev pub ready : List ℕ → Refs → Refs
ready bs s = record (get_all bs s) { vm = s.vm + 1 }

task_fini-Took :
    (bs : List ℕ) (s s' : Refs) → Took bs bs s s' → Took bs bs s (task_fini bs (ready bs s'))
unfolding task_fini
task_fini-Took bs s s' t =
    let g = put_all-Gave bs (ready bs s') in
    let i = get_all-Took bs s' in
    record {
      objects = λ c. ground (arith, t.objects c, g.objects c, i.objects c);
      mappings = λ c. ground (arith, t.mappings c, g.mappings c, i.mappings c);
      same_vm = ground (arith, t.same_vm);
      same_sync = ground (arith, t.same_sync, g.same_sync, i.same_sync);
    }

queued-Holds :
    (a : Answers) (bs : List ℕ) (s s' : Refs)
    → Took bs bs (sync_get a.out_sync s) s'
    → Holds bs s (sync_put a.out_sync (put_all bs (ready bs s')))
queued-Holds a bs s s' t = elim (Option-cases a.out_sync) [
  | inl f ↦
      let g = put_all-Gave bs (ready bs s') in
      let i = get_all-Took bs s' in
      rw f (record {
        objects = λ c. ground (arith, f, t.objects c, g.objects c, i.objects c);
        mappings = λ c. ground (arith, f, t.mappings c, g.mappings c, i.mappings c);
        more_vm = ground (arith, f, t.same_vm, g.same_vm);
        same_sync = ground (arith, f, t.same_sync, g.same_sync, i.same_sync);
      })
  | inr (b, f) ↦
      let g = put_all-Gave bs (ready bs s') in
      let i = get_all-Took bs s' in
      rw f (record {
        objects = λ c. ground (arith, f, t.objects c, g.objects c, i.objects c);
        mappings = λ c. ground (arith, f, t.mappings c, g.mappings c, i.mappings c);
        more_vm = ground (arith, f, t.same_vm, g.same_vm);
        same_sync = ground (arith, f, t.same_sync, g.same_sync, i.same_sync);
      })
]

queue-Post :
    (a : Answers) (bs : List ℕ) (s s' : Refs)
    → Took bs bs (sync_get a.out_sync s) s'
    → let (r, held, s'') = queue a bs (ready bs s') in SubmitPost s r held s''
queue-Post a bs s s' t = elim (Result-cases (add_deps a.in_sync)) [
  | inr (e, f) ↦
      comes_to s {q = err_out2 a e bs (ready bs s')} (unfold queue in rw (f, queue)) undone
  | inl (u, f) ↦ elim (Result-cases (sync_bos a.explicit a.bo_sync)) [
    | inr (e, g) ↦
        comes_to s {q = err_out2 a e bs (ready bs s')} (unfold queue in rw (f, g, queue)) undone
    | inl (w, g) ↦
        comes_to s {q = (success, bs, sync_put a.out_sync (put_all bs (ready bs s')))}
          (unfold queue in rw (f, g, queue)) (queued-Holds a bs s s' t)
  ]
]
  where
    undone : Restored s (sync_put a.out_sync (unwind_all bs (task_fini bs (ready bs s'))))
    undone =
        err_out0-Restored a bs s (task_fini bs (ready bs s'))
          (task_fini-Took bs (sync_get a.out_sync s) s' t)

task_init-ready :
    (kmemdup : Bool) (job_init : Status) (bs : List ℕ) (s : Refs)
    → kmemdup ≡ true
    → job_init ≡ success
    → task_init kmemdup job_init bs s ≡ (success, ready bs s)
unfolding task_init
task_init-ready kmemdup job_init bs s k f = rw (k, f) refl

task_init_no_memory :
    (kmemdup : Bool) (job_init : Status) (bs : List ℕ) (s : Refs)
    → kmemdup ≡ false
    → task_init kmemdup job_init bs s ≡ (err enomem, s)
unfolding task_init
task_init_no_memory kmemdup job_init bs s k = rw k refl

pub locked :
    (a : Answers) (bs : List ℕ) (s : Refs) {u : Unit {0}} {q : Status × Refs}
    → a.lock ≡ ok u
    → task_init a.kmemdup a.job_init bs s ≡ q
    → submit_bos a bs s ≡ after_init a bs q
unfolding submit_bos
locked a bs s f e = start ∙ ap (after_init a bs) e
  where
    start : submit_bos a bs s ≡ after_init a bs (task_init a.kmemdup a.job_init bs s)
    start = ground (arith, f)

submit_bos-Post :
    (a : Answers) (bs : List ℕ) (s s' : Refs)
    → a.job_init ≡ success
    → Took bs bs (sync_get a.out_sync s) s'
    → let (r, held, s'') = submit_bos a bs s' in SubmitPost s r held s''
submit_bos-Post a bs s s' init t = elim (Result-cases a.lock) [
  | inr (e, f) ↦
      comes_to s {q = err_out0 a e bs s'} (unfold submit_bos in rw (f, submit_bos))
        (err_out0-Restored a bs s s' t)
  | inl (u, f) ↦ elim (Bool-cases a.kmemdup) [
    | inr k ↦
        comes_to s {q = err_out0 a enomem bs s'}
          (unfold after_init in locked a bs s' f (task_init_no_memory a.kmemdup a.job_init bs s' k))
          (err_out0-Restored a bs s s' t)
    | inl k ↦
        comes_to s {q = queue a bs (ready bs s')}
          (unfold after_init in
            locked a bs s' f (task_init-ready a.kmemdup a.job_init bs s' k init))
          (queue-Post a bs s s' t)
  ]
]

-- A submission that succeeds has taken exactly what the queued task holds: both references of each of
-- its buffers and one of the address space, the syncobj being given back. One that fails, at whatever
-- point, leaves every count as it was, as long as `drm_sched_job_init` is not what fails. No count of a
-- mapping may be near 2 ^ 32.
pub submit-Post :
    (a : Answers) (s : Refs)
    → a.job_init ≡ success
    → ((c : ℕ) → s.va c + length a.lookups < u32_mod)
    → let (r, held, s') = submit a s in SubmitPost s r held s'
submit-Post a s init room = elim (Bool-cases (is_missing a.out_sync)) [
  | inl f ↦ comes_to s {q = (err enoent, [], s)} (unfold submit in rw (f, submit)) same
  | inr f ↦ elim (Result-cases (lookup_all a.lookups (sync_get a.out_sync s)).0) [
    | inr (e, g) ↦
        comes_to s {q = err_out0 a e found.1 found.2} (unfold submit in rw (f, g, submit))
          (err_out0-Restored a found.1 s found.2 took)
    | inl (u, g) ↦
        comes_to s {q = submit_bos a found.1 found.2} (unfold submit in rw (f, g, submit))
          (submit_bos-Post a found.1 s found.2 init took)
  ]
]
  where
    found : Status × List ℕ × Refs
    found = lookup_all a.lookups (sync_get a.out_sync s)

    took : Took found.1 found.1 (sync_get a.out_sync s) found.2
    took =
        lookup_all-Took a.lookups (sync_get a.out_sync s) (λ c. elim (Option-cases a.out_sync) [
          | inl f ↦ rw f (room c)
          | inr (b, f) ↦ rw f (room c)
        ])

    same : Restored s s
    same = record { objects = λ c. refl; mappings = λ c. refl; same_vm = refl; same_sync = refl }
