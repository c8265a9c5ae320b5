-- ===== src/Sched/Dump/Account.antt =====
-- The list of saved tasks and the numbers in its head.
use lima_freebsd.Base.{
  ℕ, ◌+◌, ◌%◌, ◌<◌, ◌≤◌, ◌≡◌, List, [], ◌∷◌, length, Bool, arith, leb, Bool-cases, Option-cases,
  inl, inr,
}
use lima_freebsd.Sched.Dump.{u32_mod, Task, ErrorTask, Dumps, write_chunks, build_error_task_list}

unfoldable pub sizes : List ErrorTask → ℕ
sizes [] = 0
sizes (e ∷ es) = e.size + sizes es

-- The head counts the tasks of the list and their bytes; no more are kept than the module parameter
-- allows.
pub record IsTallied (max : ℕ) (d : Dumps) : Type 0 where
  pub tasks : d.num_tasks ≡ length d.error_task_list
  pub bytes : d.size ≡ sizes d.error_task_list % u32_mod
  pub bounded : length d.error_task_list ≤ max

-- lima_sched_build_error_task_list keeps the head of the list in step with it, and within its limit,
-- whether the memory is there and whether the buffers can be mapped or not.
pub build_error_task_list-IsTallied :
    (max : ℕ) (kvmalloc : Bool) (t : Task) (d : Dumps)
    → max < u32_mod
    → IsTallied max d
    → IsTallied max (build_error_task_list max kvmalloc t d)
unfolding build_error_task_list sizes
build_error_task_list-IsTallied max kv t d small v = elim (Bool-cases (leb max d.num_tasks)) [
  | inl full ↦ rw full v
  | inr space ↦ elim (Bool-cases kv) [
    | inr gone ↦ rw (space, gone) v
    | inl there ↦ elim (Option-cases (write_chunks t)) [
      | inl f ↦ rw (space, there, f) v
      | inr (w, f) ↦
          rw (space, there, f)
            (record {
              tasks = ground (arith, v.tasks, v.bounded);
              bytes = omega (arith, v.bytes);
              bounded = ground (arith, v.tasks);
            })
    ]
  ]
]
