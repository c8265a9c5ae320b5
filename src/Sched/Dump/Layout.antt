-- ===== src/Sched/Dump/Layout.antt =====
-- Where the bytes of a saved task go.
use lima_freebsd.Base.{
  ℕ, ◌+◌, ◌*◌, ◌%◌, ◌<◌, ◌≡◌, refl, subst, List, [], ◌∷◌, length, All, some, true, arith,
}
use lima_freebsd.Sched.Dump.{
  u32_mod, task_header, chunk_header, pid_header, buffer_header, error_task_header, Buffer, Task,
  Chunk, frame, process_name, process_id, buffer, saved_size, add_buffers, total_size, Written,
  write_buffers, write_chunks, room,
}

-- The bytes that a chunk takes: its header, as long as its kind has it, and what it holds.
abbrev pub extent : Chunk → ℕ
extent (frame n) = chunk_header + n
extent (process_name n) = chunk_header + n
extent (process_id p) = pid_header
extent (buffer va n) = buffer_header + n

-- Each chunk begins where the one before ends.
pub data EndToEnd : ℕ → List (ℕ × Chunk) → ℕ → Type 0 where
  finished : {at : ℕ} → EndToEnd at [] at
  next :
      {at end : ℕ} {c : Chunk} {cs : List (ℕ × Chunk)}
      → EndToEnd (at + extent c) cs end
      → EndToEnd at ((at, c) ∷ cs) end

next_at :
    {at at' end : ℕ} {c : Chunk} {cs : List (ℕ × Chunk)}
    → at' ≡ at + extent c
    → EndToEnd at' cs end
    → EndToEnd at ((at, c) ∷ cs) end
next_at {end} {cs} e chain = EndToEnd.next (subst (λ m. EndToEnd m cs end) e chain)

-- The bytes of the buffers themselves.
unfoldable pub payload : List Buffer → ℕ
payload [] = 0
payload (bo ∷ bos) = saved_size bo + payload bos

-- The buffers from an offset on, all of which can be mapped.
write_buffers_lem :
    (bos : List Buffer) (at : ℕ)
    → payload bos < u32_mod
    → All (λ b. b.mappable ≡ true) bos
    → (w : Written) × (write_buffers bos at ≡ some w)
      × EndToEnd at w.chunks w.end
      × (length w.chunks ≡ length bos)
      × (w.end ≡ at + buffer_header * length bos + payload bos)
unfolding write_buffers payload
write_buffers_lem [] at small h =
    (record { chunks = []; end = at }, refl, EndToEnd.finished, refl, omega arith)
write_buffers_lem (bo ∷ bos) at small (here, h) =
    let cut : saved_size bo % u32_mod ≡ saved_size bo = omega arith in
    let (w, run, chain, n, e) =
      write_buffers_lem bos (at + buffer_header + saved_size bo % u32_mod) (omega arith) h in
    (
      record w { chunks = (at, buffer bo.va (saved_size bo % u32_mod)) ∷ w.chunks },
      rw (here, run, write_buffers),
      next_at (omega arith) chain,
      omega (arith, n),
      omega (arith, e, cut),
    )

add_buffers_lem :
    (bos : List Buffer) (size : ℕ)
    → size + chunk_header * length bos + payload bos < u32_mod
    → add_buffers bos size ≡ size + chunk_header * length bos + payload bos
unfolding add_buffers payload
add_buffers_lem [] size h = omega arith
add_buffers_lem (bo ∷ bos) size h = omega (
  arith,
  add_buffers_lem bos (((size + chunk_header) % u32_mod + saved_size bo) % u32_mod) (omega arith),
)

abbrev pub fixed_size : Task → ℕ
fixed_size t = chunk_header + t.frame_size + chunk_header + t.name_size + chunk_header

total_size_lem :
    (t : Task)
    → fixed_size t + chunk_header * length t.bos + payload t.bos < u32_mod
    → total_size t ≡ fixed_size t + chunk_header * length t.bos + payload t.bos
unfolding total_size
total_size_lem t small =
    let e : ((chunk_header + t.frame_size) % u32_mod + (chunk_header + t.name_size) + chunk_header)
          % u32_mod
        ≡ fixed_size t =
      omega arith in
    rw e (add_buffers_lem t.bos (fixed_size t) small)

-- Of a task whose sizes stay within 32 bits and whose buffers can all be mapped, three chunks are
-- written and one for each buffer, end to end from the task's header on; and the last byte lies beyond
-- the memory that was allocated for them, by 4 bytes and 8 more for each buffer.
pub write_chunks-overrun :
    (t : Task)
    → fixed_size t + chunk_header * length t.bos + payload t.bos + task_header + error_task_header
      < u32_mod
    → All (λ b. b.mappable ≡ true) t.bos
    → (w : Written) × (write_chunks t ≡ some w)
      × EndToEnd task_header w.chunks w.end
      × (length w.chunks ≡ 3 + length t.bos)
      × (w.end ≡ room t + 4 + 8 * length t.bos)
write_chunks-overrun t small h =
    let (w, run, chain, n, e) = write_buffers_lem t.bos (at_pid + pid_header) (omega arith) h in
    (
      record w {
        chunks =
            (task_header, frame t.frame_size)
            ∷ (at_name, process_name t.name_size)
            ∷ (at_pid, process_id t.pid)
            ∷ w.chunks;
      },
      unfold write_chunks in rw (run, write_chunks),
      next_at (omega arith) (next_at (omega arith) (next_at refl chain)),
      omega (arith, n),
      omega (arith, e, total_size_lem t (omega arith)),
    )
  where
    at_name : ℕ
    at_name = task_header + chunk_header + t.frame_size

    at_pid : ℕ
    at_pid = at_name + chunk_header + t.name_size
