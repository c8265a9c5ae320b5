-- ===== src/Drv/Submit.antt =====
-- lima_ioctl_gem_submit: what it holds on every path.
use lima_freebsd.Base.{
  ℕ, ◌+◌, ◌<◌, ◌≡◌, ◌≢◌, arith, Bool, true, false, not, ◌==◌, ◌||◌, leb, bit_and, if◌then◌else◌,
  einval, enomem, enoent, other, Errno, ok, err, Status, success,
}

abbrev pub pipe_num : ℕ
pipe_num = 2

-- `LIMA_SUBMIT_FLAG_EXPLICIT_FENCE`.
abbrev pub explicit_fence : ℕ
explicit_fence = 1

-- The fields of `struct drm_lima_gem_submit` that are checked.
pub record Args : Type 0 where
  pub pipe : ℕ
  pub nr_bos : ℕ
  pub flags : ℕ
  pub frame_size : ℕ

-- What the call is answered: the two allocations, the two copies from user space, the validation of
-- the frame, whether the context is found, and lima_gem_submit.
pub record Answers : Type 0 where
  pub kvcalloc : Bool
  pub copy_bos : Bool
  pub zalloc : Bool
  pub copy_frame : Bool
  pub task_validate : Status
  pub ctx_get : Bool
  pub submit : Status

-- How often the array of buffers and the task were allocated and freed, and the context taken and given
-- back. `queued` tasks belong to the scheduler.
pub record Held : Type 0 where
  pub bos_allocs : ℕ
  pub bos_frees : ℕ
  pub task_allocs : ℕ
  pub task_frees : ℕ
  pub ctx_gets : ℕ
  pub ctx_puts : ℕ
  pub queued : ℕ

-- `out0` and `out1`.
abbrev out0 : Status → Held → Status × Held
out0 r h = (r, record h { bos_frees = h.bos_frees + 1 })

abbrev out1 : Errno → Held → Status × Held
out1 e h = out0 (err e) (record h { task_frees = h.task_frees + 1 })

-- From the task on.
unfoldable pub with_task : Answers → Held → Status × Held
with_task a h = if not a.copy_frame then out1 other h else (elim a.task_validate [
  | err e ↦ out1 e h
  | ok u ↦
      if not a.ctx_get
      then out1 enoent h
      else (let h' = record h { ctx_gets = h.ctx_gets + 1; ctx_puts = h.ctx_puts + 1 } in
          elim a.submit [
            | err e ↦ out1 e h'
            | ok v ↦ out0 success (record h' { queued = h'.queued + 1 })
          ])
])

-- The argument `frame_size` of the pipe is that of lima_gp_pipe_init or lima_pp_pipe_init.
unfoldable pub ioctl_gem_submit : (ℕ → ℕ) → Args → Answers → Held → Status × Held
unfolding with_task
ioctl_gem_submit frame_size x a h =
    if leb pipe_num x.pipe || x.nr_bos == 0
    then (err einval, h)
    else if not (x.flags == bit_and x.flags explicit_fence)
    then (err einval, h)
    else if not (x.frame_size == frame_size x.pipe)
    then (err einval, h)
    else if not a.kvcalloc
    then (err enomem, h)
    else (let h1 = record h { bos_allocs = h.bos_allocs + 1 } in
        if not a.copy_bos
        then out0 (err other) h1
        else if not a.zalloc
        then out0 (err enomem) h1
        else with_task a (record h1 { task_allocs = h1.task_allocs + 1 }))

abbrev pub is_ok : Status → Bool
is_ok (ok u) = true
is_ok (err e) = false

-- The array of buffers and the reference to the context that a call takes are given back, and each
-- task is freed or queued. The references that lima_gem_submit takes to the buffers are not in here.
pub record IsBalanced (h : Held) : Type 0 where
  pub bos : h.bos_allocs ≡ h.bos_frees
  pub ctx : h.ctx_gets ≡ h.ctx_puts
  pub task : h.task_allocs ≡ h.task_frees + h.queued

-- What holds where a submission succeeds.
abbrev pub Passed : (ℕ → ℕ) → Args → Answers → Status → Type 0
Passed frame_size x a (err e) = Unit
Passed frame_size x a (ok u) =
    (x.pipe < pipe_num)
    × (x.nr_bos ≢ 0)
    × (x.flags ≡ bit_and x.flags explicit_fence)
    × (x.frame_size ≡ frame_size x.pipe)
    × (a.task_validate ≡ success)

-- On every path, a submission has freed the array of buffers that it allocated, has put the context
-- that it got, and has freed or queued its task; the buffers themselves, which lima_gem_submit looks
-- up, are not counted. It queues a task exactly where it succeeds, and
-- then the arguments passed each check: a pipe that exists, a buffer at least, no unknown flag, a
-- frame of the pipe's size, which the pipe has found valid.
pub ioctl_gem_submit-IsBalanced :
    (frame_size : ℕ → ℕ) (x : Args) (a : Answers) (h : Held)
    → IsBalanced h
    → let (r, h') = ioctl_gem_submit frame_size x a h in
      IsBalanced h' × (h'.queued ≡ h.queued + (if is_ok r then 1 else 0)) × Passed frame_size x a r
unfolding ioctl_gem_submit
ioctl_gem_submit-IsBalanced frame_size x a h b = (ground arith, ground arith, ground arith)
