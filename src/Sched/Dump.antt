-- ===== src/Sched/Dump.antt =====
-- lima_sched_build_error_task_list: what is saved of a task that failed. A u32 is a number below
-- 2 ^ 32, an offset in the buffer one without bound; the size of `ctx->pname` is the kernel's.
pub mod Layout
pub mod Account
mod Tests
pub use lima_freebsd.Base.Int.{u32_mod}
use lima_freebsd.Base.{
  ℕ, zero, suc, ◌+◌, ◌-◌, ◌*◌, ◌%◌, ◌^◌, List, [], ◌∷◌, ◌++◌, Option, none, some, Bool, true, false,
  not, leb, ltb, ◌==◌, if◌then◌else◌, is_some,
}

-- sizeof(struct lima_dump_task), of the three kinds of chunk, and of struct lima_sched_error_task.
abbrev pub task_header : ℕ
task_header = 12

abbrev pub chunk_header : ℕ
chunk_header = 8

abbrev pub pid_header : ℕ
pid_header = 12

abbrev pub buffer_header : ℕ
buffer_header = 16

abbrev pub error_task_header : ℕ
error_task_header = 32

-- A buffer of the task: `lima_bo_size`, the heap's size, its address, and whether it can be mapped for
-- the copy.
pub record Buffer : Type 0 where
  pub size : ℕ
  pub heap_size : ℕ
  pub va : ℕ
  pub mappable : Bool

-- The pipe's `frame_size` and the process.
pub record Task : Type 0 where
  pub pipe_id : ℕ
  pub frame_size : ℕ
  pub name_size : ℕ
  pub pid : ℕ
  pub bos : List Buffer

-- A chunk as it is written: its id and the u32 `size` that its header holds.
pub data Chunk : Type 0 where
  frame : ℕ → Chunk
  process_name : ℕ → Chunk
  process_id : ℕ → Chunk
  buffer : ℕ → ℕ → Chunk

-- `bo->heap_size ? bo->heap_size : lima_bo_size(bo)`
abbrev pub saved_size : Buffer → ℕ
saved_size bo = if bo.heap_size == 0 then bo.size else bo.heap_size

unfoldable pub add_buffers : List Buffer → ℕ → ℕ
add_buffers [] size = size
add_buffers (bo ∷ bos) size =
    add_buffers bos (((size + chunk_header) % u32_mod + saved_size bo) % u32_mod)

-- "Compute total serialised size."
unfoldable pub total_size : Task → ℕ
total_size t = add_buffers t.bos (
    ((chunk_header + t.frame_size) % u32_mod + (chunk_header + t.name_size) + chunk_header)
    % u32_mod)

-- The chunks that are written, each with its offset from `et->data`, and the offset after the last.
pub record Written : Type 0 where
  pub chunks : List (ℕ × Chunk)
  pub end : ℕ

-- The loop over the buffers from the offset `at`; `none` where one cannot be mapped.
unfoldable pub write_buffers : List Buffer → ℕ → Option Written
write_buffers [] at = some (record { chunks = []; end = at })
write_buffers (bo ∷ bos) at =
    let size = saved_size bo % u32_mod in
    let rest = write_buffers bos (at + buffer_header + size) in
    if not bo.mappable then none else elim rest [
      | none ↦ none
      | some w ↦ some (record w { chunks = (at, buffer bo.va size) ∷ w.chunks })
    ]

unfoldable pub write_chunks : Task → Option Written
write_chunks t =
    let at_name = task_header + chunk_header + t.frame_size in
    let at_pid = at_name + chunk_header + t.name_size in
    elim (write_buffers t.bos (at_pid + pid_header)) [
      | none ↦ none
      | some w ↦ some (record w {
        chunks =
            (task_header, frame t.frame_size)
            ∷ (at_name, process_name t.name_size)
            ∷ (at_pid, process_id t.pid)
            ∷ w.chunks;
      })
    ]

-- An element of `error_task_list`: what `dt` holds, the chunks, and `et->size`.
pub record ErrorTask : Type 0 where
  pub id : ℕ
  pub chunks_size : ℕ
  pub written : Written
  pub size : ℕ

-- The parts of `struct lima_device` that the dump keeps.
pub record Dumps : Type 0 where
  pub error_task_list : List ErrorTask
  pub size : ℕ
  pub num_tasks : ℕ

abbrev pub task_size : Task → ℕ
task_size t = (total_size t + task_header) % u32_mod

-- The bytes from `et->data` to the end of the allocation of `mem_size`.
abbrev pub room : Task → ℕ
room t = (task_size t + error_task_header) % u32_mod - error_task_header

-- `kvmalloc` says whether the memory is there; `max` is `lima_max_error_tasks`.
unfoldable pub build_error_task_list : ℕ → Bool → Task → Dumps → Dumps
unfolding write_chunks total_size
build_error_task_list max kvmalloc t d =
    if leb max d.num_tasks then d else if not kvmalloc then d else elim (write_chunks t) [
      | none ↦ d
      | some w ↦ record {
        error_task_list =
            record { id = t.pipe_id; chunks_size = total_size t; written = w; size = task_size t }
            ∷ d.error_task_list;
        size = (d.size + task_size t) % u32_mod;
        num_tasks = (d.num_tasks + 1) % u32_mod;
      }
    ]
