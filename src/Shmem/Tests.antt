-- ===== src/Shmem/Tests.antt =====
-- Runs of the GEM shmem helper at concrete inputs: an object of two pages, whose pages 7 and 9 the
-- swap object hands out one by one.
use lima_freebsd.Base.{
  ℕ, ◌≡◌, refl, [], ◌∷◌, none, some, arith, true, false, ◌==◌, if◌then◌else◌, ok, success, done,
}
use lima_freebsd.Base.Int.{pos}
use lima_freebsd.Shmem.Logic.{unref}
use lima_freebsd.Shmem.Pages.{
  Memory, Kernel, Entries, get_backing, read_pages, try_contig, wire, set_memattr, put_backing,
}
use lima_freebsd.Shmem.Object.{Object, get_pages, put_pages, release_pages, pin, free, unpin}
use lima_freebsd.Shmem.Object.Machine.{System, Step, Inv}
use lima_freebsd.Shmem.Object.Machine.Life.{
  IsFresh, History, History-Inv, History-Returns, History-free, unpin_call, Returns,
}

abbrev memory : Memory
memory = record {
  wires = λ p. if p == 7 then 2 else 0;
  combining = λ _. false;
  dirty = λ _. false;
  accessed = λ _. false;
  contig_alloc_pages = 0;
  teardown_pages = 0;
  teardown_objects = 0;
}

abbrev kernel : Kernel
kernel = record {
  read_page = λ i. if i == 0 then ok 7 else ok 9;
  contig_run = none;
  kvmalloc = true;
  resident = 0;
  has_f_shmem = true;
  shmem_contig = false;
}

abbrev object : Object
object = record {
  size = 8192;
  pages = none;
  pages_use_count = 0;
  vmap_use_count = 0;
  vaddr = none;
  sgt = none;
  madv = pos 0;
  map_wc = true;
  mark_dirty = true;
  mark_accessed = false;
  imported = false;
  exported = false;
  mmap_offset = true;
}

abbrev entries : Entries
entries = some 7 ∷ some 9 ∷ []

abbrev begin : System
begin = record { o = object; s = memory; pins = 0; maps = 0 }

begin-IsFresh : IsFresh begin
begin-IsFresh = record {
  native = refl;
  no_pages = refl;
  no_users = refl;
  no_mappings = refl;
  no_vaddr = refl;
  no_table = refl;
  no_pins = refl;
  no_maps = refl;
}

abbrev held : Object × Memory
held = (
  record object { pages = some entries; pages_use_count = 1 },
  set_memattr true entries (wire 9 (wire 7 memory)),
)

pin_run : pin success kernel object memory ≡ (success, held.0, held.1)
unfolding pin get_pages get_backing read_pages try_contig
pin_run = refl

abbrev pinned : System
pinned = record { o = held.0; s = held.1; pins = 1; maps = 0 }

pin-History : History begin pinned
pin-History =
    History.then History.start
      (Step.pinned success kernel success held.0 held.1 (omega arith) pin_run)

History-Inv_example : Inv memory.wires pinned
History-Inv_example = History-Inv begin-IsFresh pin-History

History-Returns_example : Returns (unpin held.0 held.1)
History-Returns_example = History-Returns unpin_call begin-IsFresh pin-History (omega arith)

abbrev back : Object × Memory
back = (object, put_backing 8192 entries true false (set_memattr false entries held.1))

unpin_run : unpin held.0 held.1 ≡ done back
unfolding unpin put_pages release_pages unref
unpin_run = refl

abbrev unpinned : System
unpinned = record { o = back.0; s = back.1; pins = 0; maps = 0 }

free-History : History begin unpinned
free-History = History.then pin-History (Step.unpinned 0 back.0 back.1 refl unpin_run)

History-free_example :
    (s : Memory) × (free back.0 back.1 ≡ done (0, s)) × ((p : ℕ) → s.wires p ≡ memory.wires p)
History-free_example = History-free begin-IsFresh free-History refl refl refl
