-- ===== src/Gem/Submit.antt =====
-- lima_gem_submit, with lima_sched_task_init, lima_sched_task_fini and lima_sched_free_job: who holds
-- which reference. A buffer object is a number. What drm core answers is an argument of the call; its
-- fences, locks and dependency lists are not state of the driver.
pub mod Loops
pub mod Balance
pub mod Ends
mod Tests
pub use lima_freebsd.Base.Int.{u32_mod}
use lima_freebsd.Base.{
  ℕ, zero, suc, ◌+◌, ◌-◌, ◌%◌, ◌^◌, List, [], ◌∷◌, Option, none, some, Bool, true, false, not, ◌==◌,
  if◌then◌else◌, update, Errno, enomem, enoent, Result, ok, err, Status, success,
}

-- The reference counts of the GEM objects; the count of each in the file's address space
-- (`bo_va->ref_count`, 0 where it is not mapped); those of the address space and of the syncobj.
pub record Refs : Type 0 where
  pub obj : ℕ → ℕ
  pub va : ℕ → ℕ
  pub vm : ℕ
  pub sync : ℕ

abbrev pub object_get : ℕ → Refs → Refs
object_get b s = record s { obj = update s.obj b (s.obj b + 1) }

abbrev pub object_put : ℕ → Refs → Refs
object_put b s = record s { obj = update s.obj b (s.obj b - 1) }

-- lima_vm_bo_add with `create` false, and lima_vm_bo_del.
abbrev pub va_get : ℕ → Refs → Refs
va_get b s = record s { va = update s.va b ((s.va b + 1) % u32_mod) }

abbrev pub va_put : ℕ → Refs → Refs
va_put b s = record s { va = update s.va b (s.va b - 1) }

-- `for (...) drm_gem_object_get(...)`, and the loop with `put`.
unfoldable pub get_all : List ℕ → Refs → Refs
get_all [] s = s
get_all (b ∷ bs) s = get_all bs (object_get b s)

unfoldable pub put_all : List ℕ → Refs → Refs
put_all [] s = s
put_all (b ∷ bs) s = put_all bs (object_put b s)

-- The first loop: `drm_gem_object_lookup` answers for each handle. The result is the entries of `bos`
-- that were filled in, which are NULL from the failure on.
unfoldable pub lookup_all : List (Option ℕ) → Refs → Status × List ℕ × Refs
lookup_all [] s = (success, [], s)
lookup_all (none ∷ hs) s = (err enoent, [], s)
lookup_all (some b ∷ hs) s =
    let s' = object_get b s in
    let (r, bs, s'') = lookup_all hs (va_get b s') in
    if s'.va b == 0 then (err enoent, [], object_put b s') else (r, b ∷ bs, s'')

-- The loop at `err_out0`.
unfoldable pub unwind_all : List ℕ → Refs → Refs
unwind_all [] s = s
unwind_all (b ∷ bs) s = unwind_all bs (object_put b (va_put b s))

-- lima_sched_task_init: the answers of `kmemdup` and `drm_sched_job_init`.
unfoldable pub task_init : Bool → Status → List ℕ → Refs → Status × Refs
unfolding get_all
task_init kmemdup job_init bs s = if not kmemdup then (err enomem, s) else elim job_init [
  | err e ↦ (err e, get_all bs s)
  | ok u ↦ (success, record (get_all bs s) { vm = s.vm + 1 })
]

unfoldable pub task_fini : List ℕ → Refs → Refs
unfolding put_all
task_fini bs s = record (put_all bs s) { vm = s.vm - 1 }

-- lima_sched_free_job, once the job is done with.
unfoldable pub del_all : List ℕ → Refs → Refs
del_all [] s = s
del_all (b ∷ bs) s = del_all bs (va_put b s)

unfoldable pub free_job : List ℕ → Refs → Refs
unfolding del_all task_fini
free_job bs s = task_fini bs (del_all bs s)

-- lima_gem_add_deps: each `in_sync`, where 0 is none, with the answer for it.
unfoldable pub add_deps : List (ℕ × Status) → Status
add_deps [] = success
add_deps ((h, r) ∷ hs) =
    let rest = add_deps hs in if h == 0 then rest else elim r [ err e ↦ err e | ok u ↦ rest ]

-- lima_gem_sync_bo, with the answers of `dma_resv_reserve_fences` and of
-- `drm_sched_job_add_implicit_dependencies`; and the loop that calls it.
abbrev pub sync_bo : Bool → Status × Status → Status
sync_bo explicit (err e, implicit) = err e
sync_bo explicit (ok u, implicit) = if explicit then success else implicit

unfoldable pub sync_bos : Bool → List (Status × Status) → Status
sync_bos explicit [] = success
sync_bos explicit (a ∷ more) =
    let rest = sync_bos explicit more in elim (sync_bo explicit a) [ err e ↦ err e | ok u ↦ rest ]

-- What one submission is answered. `out_sync` is whether the syncobj is found, where one is asked for.
pub record Answers : Type 0 where
  pub out_sync : Option Bool
  pub lookups : List (Option ℕ)
  pub lock : Status
  pub kmemdup : Bool
  pub job_init : Status
  pub in_sync : List (ℕ × Status)
  pub explicit : Bool
  pub bo_sync : List (Status × Status)

abbrev pub sync_get : Option Bool → Refs → Refs
sync_get none s = s
sync_get (some b) s = record s { sync = s.sync + 1 }

abbrev pub sync_put : Option Bool → Refs → Refs
sync_put none s = s
sync_put (some b) s = record s { sync = s.sync - 1 }

abbrev pub err_out0 : Answers → Errno → List ℕ → Refs → Status × List ℕ × Refs
err_out0 a e bs s = (err e, [], sync_put a.out_sync (unwind_all bs s))

-- `err_out2`, which goes on to the labels below it.
abbrev pub err_out2 : Answers → Errno → List ℕ → Refs → Status × List ℕ × Refs
err_out2 a e bs s = err_out0 a e bs (task_fini bs s)

-- From the initialised task on. The second component is what the queued task holds.
unfoldable pub queue : Answers → List ℕ → Refs → Status × List ℕ × Refs
queue a bs s = elim (add_deps a.in_sync) [
  | err e ↦ err_out2 a e bs s
  | ok u ↦ elim (sync_bos a.explicit a.bo_sync) [
    | err e ↦ err_out2 a e bs s
    | ok v ↦ (success, bs, sync_put a.out_sync (put_all bs s))
  ]
]

-- From the answer of lima_sched_task_init on.
unfoldable pub after_init : Answers → List ℕ → Status × Refs → Status × List ℕ × Refs
after_init a bs (err e, s) = err_out0 a e bs s
after_init a bs (ok u, s) = queue a bs s

-- From the reservations on.
unfoldable pub submit_bos : Answers → List ℕ → Refs → Status × List ℕ × Refs
submit_bos a bs s = elim a.lock [
  | err e ↦ err_out0 a e bs s
  | ok u ↦ after_init a bs (task_init a.kmemdup a.job_init bs s)
]

abbrev pub is_missing : Option Bool → Bool
is_missing none = false
is_missing (some found) = not found

unfoldable pub submit : Answers → Refs → Status × List ℕ × Refs
submit a s =
    if is_missing a.out_sync
    then (err enoent, [], s)
    else (let (r, bs, s') = lookup_all a.lookups (sync_get a.out_sync s) in
        elim r [ err e ↦ err_out0 a e bs s' | ok u ↦ submit_bos a bs s' ])
