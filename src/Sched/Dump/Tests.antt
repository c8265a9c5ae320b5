-- ===== src/Sched/Dump/Tests.antt =====
-- Saved tasks at concrete inputs.
use lima_freebsd.Base.{◌+◌, ◌*◌, ◌<◌, ◌≡◌, ◌^◌, refl, [], ◌∷◌, length, some, true, arith}
use lima_freebsd.Sched.Dump.{task_header, Buffer, Task, Dumps, Written, write_chunks, room}
use lima_freebsd.Sched.Dump.Layout.{EndToEnd, fixed_size, payload, write_chunks-overrun}
use lima_freebsd.Sched.Dump.Account.{IsTallied, sizes}

abbrev texture : Buffer
texture = record { size = 8192; heap_size = 0; va = 0x1000; mappable = true }

abbrev tile_heap : Buffer
tile_heap = record { size = 0x1000000; heap_size = 0x100000; va = 0x10000; mappable = true }

abbrev task : Task
task = record {
  pipe_id = 0;
  frame_size = 64;
  name_size = 20;
  pid = 700;
  bos = texture ∷ tile_heap ∷ [];
}

fits : fixed_size task + 8 * length task.bos + payload task.bos + 12 + 32 < 2 ^ 32
unfolding payload
fits = omega arith

write_chunks-overrun_example :
    (w : Written) × (write_chunks task ≡ some w)
    × EndToEnd task_header w.chunks w.end
    × (length w.chunks ≡ 3 + length task.bos)
    × (w.end ≡ room task + 4 + 8 * length task.bos)
write_chunks-overrun_example = write_chunks-overrun task fits (refl, (refl, tt))

abbrev no_dumps : Dumps
no_dumps = record { error_task_list = []; size = 0; num_tasks = 0 }

no_dumps-IsTallied : IsTallied 2 no_dumps
unfolding sizes
no_dumps-IsTallied = record { tasks = refl; bytes = refl; bounded = omega arith }
