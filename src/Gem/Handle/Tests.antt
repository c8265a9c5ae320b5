-- ===== src/Gem/Handle/Tests.antt =====
-- Creations at concrete inputs: a heap of four pages whose handle is refused, and a dumb buffer.
use lima_freebsd.Base.{
  ◌+◌, ◌≡◌, refl, none, some, true, false, arith, Result, ok, err, enomem, done, success,
}
use lima_freebsd.Shmem.Pages.{Memory, Kernel}
use lima_freebsd.Shmem.Object.{Object}
use lima_freebsd.Shmem.Create.{Ledger, dumb_sizes}
use lima_freebsd.Shmem.Create.Dumb.{Fits, dumb_sizes-Fits}
use lima_freebsd.Gem.Handle.{Answers, create_handle}
use lima_freebsd.Gem.Handle.Life.{Created, create_handle-Created}

abbrev memory : Memory
memory = record {
  wires = λ _. 0;
  combining = λ _. false;
  dirty = λ _. false;
  accessed = λ _. false;
  contig_alloc_pages = 0;
  teardown_pages = 0;
  teardown_objects = 0;
}

abbrev kernel : Kernel
kernel = record {
  shmem_contig = false;
  has_f_shmem = true;
  resident = 0;
  kvmalloc = true;
  contig_run = none;
  read_page = λ i. ok (i + 70);
}

abbrev refused : Answers
refused = record {
  create = record { kzalloc = true; init = success; mmap_offset = success };
  heap = record {
    init_nr_pages = 2;
    has_f_shmem = true;
    kvmalloc = true;
    read_page = λ i. ok (i + 70);
    sg_alloc = success;
    kmalloc = some 900;
    dma_map = success;
    vm_map = none;
  };
  lock = success;
  kernel = kernel;
  pages_to_sg = ok 900;
  mapped = success;
  handle = err enomem;
}

abbrev ledger : Ledger
ledger = record { allocs = 5; frees = 3; inits = 4; releases = 2 }

create_handle-Created_example :
    (q : Result Object) × (m' : Memory) × (l' : Ledger) × (create_handle true refused 16384 memory
        ledger
      ≡ done (q, m', l'))
    × Created memory.wires 2 q m' l'
create_handle-Created_example =
    create_handle-Created true refused 16384 2 memory ledger
      (record { allocated = omega arith; set_up = omega arith })

dumb_sizes-Fits_example : Fits 1366 768 32 (dumb_sizes 1366 768 32 0 0)
dumb_sizes-Fits_example = dumb_sizes-Fits 1366 768 32 0 0 (omega arith) (omega arith) (omega arith)

-- A width that 32 bits do not hold in bits, though they hold the row in bytes.
wraps : dumb_sizes 0x8000000 1 32 0 0 ≡ (0, 0)
unfolding dumb_sizes lima_freebsd.Shmem.Logic.align_size
wraps = refl
