-- ===== src/Drv/Tests.antt =====
-- Runs of lima_drv.c at concrete inputs.
use lima_freebsd.Base.{
  ◌+◌, ◌≡◌, refl, arith, [], ◌∷◌, ◌++◌, true, not, ◌==◌, inl, success, if◌then◌else◌,
}
use lima_freebsd.Drv.Reader.{Reader, InOrder, slice, read_block, slice-read_block}
use lima_freebsd.Drv.Submit.{
  Args, Answers, Held, IsBalanced, Passed, is_ok, ioctl_gem_submit, ioctl_gem_submit-IsBalanced,
}

abbrev args : Args
args = record { pipe = 1; nr_bos = 2; flags = 1; frame_size = 272 }

abbrev answers : Answers
answers = record {
  kvcalloc = true;
  copy_bos = true;
  zalloc = true;
  copy_frame = true;
  task_validate = success;
  ctx_get = true;
  submit = success;
}

abbrev nothing : Held
nothing = record {
  bos_allocs = 0;
  bos_frees = 0;
  task_allocs = 0;
  task_frees = 0;
  ctx_gets = 0;
  ctx_puts = 0;
  queued = 0;
}

ioctl_gem_submit-IsBalanced_example :
    let (r, h') = ioctl_gem_submit (λ p. 272) args answers nothing in
    IsBalanced h' × (h'.queued ≡ 0 + (if is_ok r then 1 else 0)) × Passed (λ p. 272) args answers r
ioctl_gem_submit-IsBalanced_example =
    ioctl_gem_submit-IsBalanced (λ p. 272) args answers nothing
      (record { bos = refl; ctx = refl; task = refl })

abbrev reader : Reader
reader = record { dst = []; base = 0; count = 3; off = 1; read = 0 }

slice-read_block_example :
    let (more, r') = read_block reader (7 ∷ 8 ∷ []) in
    (slice r' (9 ∷ 10 ∷ []) ≡ slice reader ((7 ∷ 8 ∷ []) ++ 9 ∷ 10 ∷ []))
    × (more ≡ not (r'.count == 0))
    × (r'.read + r'.count ≡ reader.read + reader.count)
    × InOrder r'
slice-read_block_example =
    slice-read_block reader (7 ∷ 8 ∷ []) (9 ∷ 10 ∷ []) (record { ahead = inl (omega arith) })
      (omega arith)
