-- ===== src/Gem/Submit/Tests.antt =====
-- Submissions at concrete inputs: two buffers, 5 and 6, both mapped once.
use lima_freebsd.Base.{
  times, ◌+◌, ◌≡◌, ◌==◌, if◌then◌else◌, refl, [], ◌∷◌, some, true, false, arith, enospc, err,
  success,
}
use lima_freebsd.Gem.Submit.{
  Refs, Answers, lookup_all, task_init, free_job, add_deps, sync_bos, sync_get, after_init, queue,
  submit_bos, submit,
}
use lima_freebsd.Gem.Submit.Balance.{Restored, SubmitPost, submit-Post}
use lima_freebsd.Gem.Submit.Ends.{free_job-submit, submit_leak}

abbrev refs : Refs
refs = record { obj = λ b. if b == 5 then 1 else 2; va = λ b. 1; vm = 1; sync = 1 }

abbrev answers : Answers
answers = record {
  out_sync = some true;
  lookups = some 5 ∷ some 6 ∷ [];
  lock = success;
  kmemdup = true;
  job_init = success;
  in_sync = (0, success) ∷ (3, success) ∷ [];
  explicit = false;
  bo_sync = (success, success) ∷ (success, success) ∷ [];
}

submit-Post_example :
    SubmitPost refs (submit answers refs).0 (submit answers refs).1 (submit answers refs).2
submit-Post_example = submit-Post answers refs refl (λ c. omega arith)

submit_run : (submit answers refs).0 ≡ success
unfolding submit lookup_all submit_bos after_init task_init queue add_deps sync_bos
submit_run = refl

free_job-submit_example : Restored refs (free_job (submit answers refs).1 (submit answers refs).2)
free_job-submit_example = free_job-submit answers refs refl (λ c. omega arith) submit_run

abbrev refused : Answers
refused = record answers { job_init = err enospc }

lookup_run : (lookup_all refused.lookups (sync_get refused.out_sync refs)).0 ≡ success
unfolding lookup_all
lookup_run = refl

submit_leak_example :
    ((submit refused refs).0 ≡ err enospc)
    × ((submit refused refs).1 ≡ [])
    × ((submit refused refs).2.obj 5
        ≡ refs.obj 5 + times 5 (lookup_all refused.lookups (sync_get refused.out_sync refs)).1)
submit_leak_example =
    submit_leak refused refs enospc 5 (λ c. omega arith) refl lookup_run refl refl refl
