-- ===== src/Hw/Pp/Room.antt =====
-- A frame's arrays have room for the processors of the pipe.
use lima_freebsd.Base.{ℕ, ◌<◌, ◌≤◌, ◌≡◌, arith, false, length, success}
use lima_freebsd.Device.Ips.{mali400, IpAnswers, Ips, ip_desc, init_ips}
use lima_freebsd.Device.Pipes.{wire_pp_pipe}
use lima_freebsd.Device.Pipes.Bounds.{wire_pp_pipe-mali400}
use lima_freebsd.Hw.Pp.{Frame, task_validate}

task_validate_bounds :
    (num : ℕ) (f : Frame) → task_validate false num f ≡ success → (0 < f.num_pp) × (f.num_pp ≤ num)
unfolding task_validate
task_validate_bounds num f h = ground arith

-- A frame that lima_pp_task_validate accepts on a Mali-400, however the blocks of the device answered
-- when it came up, uses between one and four processors: the loop of lima_pp_task_run stays within
-- the four words of each array of the frame.
pub task_validate-wire_pp_pipe :
    (a : ℕ → IpAnswers) (s : Ips) (f : Frame)
    → ((j : ℕ) → s.present j ≡ false)
    → task_validate false
        (length (wire_pp_pipe mali400 (init_ips mali400 ip_desc a 0 s).2.present).processor)
        f
      ≡ success
    → (0 < f.num_pp) × (f.num_pp ≤ 4)
task_validate-wire_pp_pipe a s f none_yet h =
    omega (arith, task_validate_bounds _ f h, wire_pp_pipe-mali400 a s none_yet)
