-- ===== src/Gem/Heap/Tests.antt =====
-- The growth of a heap of four pages, two at first.
use lima_freebsd.Base.{
  ℕ, ◌+◌, ◌<◌, ◌≤◌, ◌≡◌, refl, [], ◌∷◌, get_elem?, none, some, true, false, arith, ok, success,
}
use lima_freebsd.Shmem.Pages.{Memory, Entries}
use lima_freebsd.Gem.Heap.{Heap, Answers, read_range, heap_alloc}
use lima_freebsd.Gem.Heap.Growth.{GrowPost, heap_alloc-Post}
use lima_freebsd.Gem.Heap.Wires.{IsPopulated, WiresPost}
use lima_freebsd.Gem.Heap.Calls.{heap_alloc-WiresPost}
use lima_freebsd.Gem.Heap.Again.{hits, read_range-again}

abbrev memory : Memory
memory = record {
  wires = λ _. 0;
  combining = λ _. false;
  dirty = λ _. false;
  accessed = λ _. false;
  contig_alloc_pages = 0;
  teardown_pages = 0;
  teardown_objects = 0;
}

abbrev answers : Answers
answers = record {
  init_nr_pages = 2;
  has_f_shmem = true;
  kvmalloc = true;
  read_page = λ i. ok (i + 70);
  sg_alloc = success;
  kmalloc = some 900;
  dma_map = success;
  vm_map = some success;
}

abbrev heap : Heap
heap = record { size = 16384; heap_size = 0; pages = none; pages_use_count = 0; sgt = none }

heap_alloc-Post_example :
    GrowPost 2 heap (heap_alloc answers heap memory).0 (heap_alloc answers heap memory).1
heap_alloc-Post_example = heap_alloc-Post answers heap memory (omega arith) (omega arith)

heap-IsPopulated : IsPopulated (λ _. 0) heap memory
heap-IsPopulated = record { wired = λ p. refl; empty = λ es e. cc; whole = λ es e. cc }

heap_alloc-WiresPost_example :
    WiresPost
      (λ _. 0)
      (heap_alloc answers heap memory).0
      (heap_alloc answers heap memory).1
      (heap_alloc answers heap memory).2
heap_alloc-WiresPost_example = heap_alloc-WiresPost (λ _. 0) answers heap memory heap-IsPopulated

abbrev held : Entries
held = some 70 ∷ some 71 ∷ none ∷ none ∷ []

held_page : (k : ℕ) → 1 ≤ k → k < 1 + 1 → get_elem? held k ≡ some (some (k + 70))
held_page k lo hi = let one : k ≡ 1 = omega arith in rw one refl

read_range-again_example :
    (s' : Memory) × (read_range answers.read_page 1 1 held memory ≡ (success, 1 + 1, held, s'))
    × (s'.wires 71 ≡ memory.wires 71 + hits (λ k. k + 70) 1 1 71)
read_range-again_example =
    read_range-again answers.read_page (λ k. k + 70) 1 1 held memory 71 held_page (λ k lo hi. refl)
