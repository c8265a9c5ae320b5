-- ===== src/Gem/Submit/Ends.antt =====
-- The end of a task, and the one failure that does not undo what it did.
use lima_freebsd.Base.{
  times, ℕ, ◌+◌, ◌<◌, ◌≡◌, refl, ap, ◌∙◌, subst, List, [], length, Option, none, some, Bool, true,
  false, arith, Errno, err, Status, success,
}
use lima_freebsd.Gem.Submit.{
  u32_mod, Refs, Answers, get_all, lookup_all, unwind_all, task_init, task_fini, del_all, free_job,
  sync_get, sync_put, err_out0, after_init, submit_bos, submit, is_missing,
}
use lima_freebsd.Gem.Submit.Loops.{
  Took, get_all-Took, put_all-Gave, del_all-Gave, unwind_all-Gave, lookup_all-Took,
}
use lima_freebsd.Gem.Submit.Balance.{Restored, Holds, SubmitPost, submit-Post, locked}

free_job-Restored : (bs : List ℕ) (s s' : Refs) → Holds bs s s' → Restored s (free_job bs s')
unfolding free_job task_fini times
free_job-Restored bs s s' h =
    let d = del_all-Gave bs s' in
    let p = put_all-Gave bs (del_all bs s') in
    record {
      objects = λ c. ground (arith, h.objects c, d.objects c, p.objects c);
      mappings = λ c. ground (arith, h.mappings c, d.mappings c, p.mappings c);
      same_vm = ground (arith, h.more_vm, d.same_vm);
      same_sync = ground (arith, h.same_sync, d.same_sync, p.same_sync);
    }

-- A submission that succeeds, and lima_sched_free_job when the job is over, leave every count of the
-- objects, of their mappings, of the address space and of the syncobj as they were. No count of a
-- mapping may be near 2 ^ 32.
pub free_job-submit :
    (a : Answers) (s : Refs)
    → a.job_init ≡ success
    → ((c : ℕ) → s.va c + length a.lookups < u32_mod)
    → (submit a s).0 ≡ success
    → Restored s (free_job (submit a s).1 (submit a s).2)
free_job-submit a s init room good =
    free_job-Restored (submit a s).1 s (submit a s).2
      (subst (λ r. SubmitPost s r (submit a s).1 (submit a s).2) good (submit-Post a s init room))

sync_get-va : (o : Option Bool) (s : Refs) → (sync_get o s).va ≡ s.va
sync_get-va none s = refl
sync_get-va (some b) s = refl

sync_get-obj : (o : Option Bool) (s : Refs) → (sync_get o s).obj ≡ s.obj
sync_get-obj none s = refl
sync_get-obj (some b) s = refl

sync_put-obj : (o : Option Bool) (s : Refs) → (sync_put o s).obj ≡ s.obj
sync_put-obj none s = refl
sync_put-obj (some b) s = refl

task_init_refused :
    (kmemdup : Bool) (job_init : Status) (bs : List ℕ) (s : Refs) (e : Errno)
    → kmemdup ≡ true
    → job_init ≡ err e
    → task_init kmemdup job_init bs s ≡ (err e, get_all bs s)
unfolding task_init
task_init_refused kmemdup job_init bs s e k f = rw (k, f) refl

leaving :
    (a : Answers) (s : Refs) (e : Errno)
    → is_missing a.out_sync ≡ false
    → (lookup_all a.lookups (sync_get a.out_sync s)).0 ≡ success
    → a.lock ≡ success
    → a.kmemdup ≡ true
    → a.job_init ≡ err e
    → let (r, bs, s') = lookup_all a.lookups (sync_get a.out_sync s) in
      submit a s ≡ err_out0 a e bs (get_all bs s')
unfolding after_init
leaving a s e f g lock k init =
    looked
    ∙ locked a found.1 found.2 lock
        (task_init_refused a.kmemdup a.job_init found.1 found.2 e k init)
  where
    found : Status × List ℕ × Refs
    found = lookup_all a.lookups (sync_get a.out_sync s)

    looked : submit a s ≡ submit_bos a found.1 found.2
    looked = unfold submit in rw (f, g, submit)

-- When `drm_sched_job_init` fails, the submission fails with its error, and each buffer that was looked
-- up keeps one GEM reference for each time that it was, which nothing holds and nothing drops.
pub submit_leak :
    (a : Answers) (s : Refs) (e : Errno) (c : ℕ)
    → ((c : ℕ) → s.va c + length a.lookups < u32_mod)
    → is_missing a.out_sync ≡ false
    → (lookup_all a.lookups (sync_get a.out_sync s)).0 ≡ success
    → a.lock ≡ success
    → a.kmemdup ≡ true
    → a.job_init ≡ err e
    → ((submit a s).0 ≡ err e)
      × ((submit a s).1 ≡ [])
      × ((submit a s).2.obj c ≡ s.obj c + times c (lookup_all a.lookups (sync_get a.out_sync s)).1)
submit_leak a s e c room f g lock k init =
    let run = leaving a s e f g lock k init in
    (ap (λ p. p.0) run, ap (λ p. p.1) run, ap (λ p. p.2.obj c) run ∙ counts)
  where
    bs : List ℕ
    bs = (lookup_all a.lookups (sync_get a.out_sync s)).1

    s' : Refs
    s' = (lookup_all a.lookups (sync_get a.out_sync s)).2

    took : Took bs bs (sync_get a.out_sync s) s'
    took =
        lookup_all-Took a.lookups (sync_get a.out_sync s)
          (λ v. rw (sync_get-va a.out_sync s) (room v))

    counts : (sync_put a.out_sync (unwind_all bs (get_all bs s'))).obj c ≡ s.obj c + times c bs
    counts = omega (
      arith,
      took.objects c,
      (get_all-Took bs s').objects c,
      (unwind_all-Gave bs (get_all bs s')).objects c,
      ap (λ f. f c) (sync_get-obj a.out_sync s),
      ap (λ f. f c) (sync_put-obj a.out_sync (unwind_all bs (get_all bs s'))),
    )
