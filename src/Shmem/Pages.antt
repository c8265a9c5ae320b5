-- ===== src/Shmem/Pages.antt =====
-- drm/drm_gem_shmem_helper.c: the pages behind an object. A page is a number. What the kernel
-- answers, page by page, is the record `Kernel`; what it keeps of each page is `Memory`.
pub mod Laws
use lima_freebsd.Base.{
  ℕ, zero, suc, ◌+◌, ◌-◌, ◌*◌, ◌/◌, ◌%◌, Option, none, some, List, [], ◌∷◌, map, Bool, true, false,
  not, ◌||◌, ltb, ◌==◌, if◌then◌else◌, update, Errno, enomem, einval, Result, ok, err,
}
use lima_freebsd.Shmem.Logic.{npages, ulong_mod}

-- The wirings of a page, whether it is write-combining, and its dirty and referenced marks; and the
-- three counters of the file.
pub record Memory : Type 0 where
  pub wires : ℕ → ℕ
  pub combining : ℕ → Bool
  pub dirty : ℕ → Bool
  pub accessed : ℕ → Bool
  pub contig_alloc_pages : ℕ
  pub teardown_pages : ℕ
  pub teardown_objects : ℕ

-- The answers to one call: `shmem_read_mapping_page` at each index, the first page of the run that
-- `vm_page_alloc_contig` finds, and whether the page array can be allocated; the object's
-- `resident_page_count`, whether it has a swap object, and the sysctl `shmem_contig`.
pub record Kernel : Type 0 where
  pub read_page : ℕ → Result ℕ
  pub contig_run : Option ℕ
  pub kvmalloc : Bool
  pub resident : ℕ
  pub has_f_shmem : Bool
  pub shmem_contig : Bool

abbrev pub contig_max_pages : ℕ
contig_max_pages = 4096

-- An entry of a page array may be NULL.
abbrev pub Entries : Type 0
Entries = List (Option ℕ)

unfoldable pub wire : ℕ → Memory → Memory
wire p s = record s { wires = update s.wires p (s.wires p + 1) }

-- `put_page`
unfoldable pub unwire : ℕ → Memory → Memory
unwire p s = record s { wires = update s.wires p (s.wires p - 1) }

-- `m[0]` to `m[n - 1]`, each wired once by VM_ALLOC_WIRED.
unfoldable pub run_entries : ℕ → ℕ → Entries
run_entries zero p = []
run_entries (suc n) p = some p ∷ run_entries n (p + 1)

unfoldable pub wire_run : ℕ → ℕ → Memory → Memory
unfolding wire
wire_run zero p s = s
wire_run (suc n) p s = wire_run n (p + 1) (wire p s)

unfoldable pub try_contig : Kernel → ℕ → Memory → Option ℕ × Memory
try_contig k n s =
    if not k.shmem_contig || ltb n 2 || ltb contig_max_pages n
    then (none, s)
    else if not (k.resident == 0)
    then (none, s)
    else elim k.contig_run [
      | none ↦ (none, s)
      | some m ↦ (
        some m,
        wire_run n m (record s { contig_alloc_pages = (s.contig_alloc_pages + n) % ulong_mod }),
      )
    ]

-- The loop over `shmem_read_mapping_page`, with its `fail:` path: the pages got so far are put, the
-- last one first.
unfoldable pub read_pages : (ℕ → Result ℕ) → ℕ → ℕ → Memory → Result Entries × Memory
read_pages read zero i s = (ok [], s)
read_pages read (suc n) i s = elim (read i) [
  | err e ↦ (err e, s)
  | ok p ↦
      let (r, s') = read_pages read n (i + 1) (wire p s) in
      elim r [ ok ps ↦ (ok (some p ∷ ps), s') | err e ↦ (err e, unwire p s') ]
]

-- drm_gem_shmem_freebsd_get_pages
unfoldable pub get_backing : Kernel → ℕ → Memory → Result Entries × Memory
get_backing k size s =
    if not k.has_f_shmem
    then (err einval, s)
    else if npages size == 0
    then (err einval, s)
    else if not k.kvmalloc
    then (err enomem, s)
    else (let (m, s') = try_contig k (npages size) s in
        elim m [
          | some p ↦ (ok (run_entries (npages size) p), s')
          | none ↦ read_pages k.read_page (npages size) 0 s'
        ])

unfoldable pub put_entry : Bool → Bool → Option ℕ → Memory → Memory
unfolding unwire
put_entry dirty accessed none s = s
put_entry dirty accessed (some p) s = unwire p (record s {
  dirty = if dirty then update s.dirty p true else s.dirty;
  accessed = if accessed then update s.accessed p true else s.accessed;
})

unfoldable pub put_entries : Bool → Bool → Entries → Memory → Memory
unfolding put_entry
put_entries dirty accessed [] s = s
put_entries dirty accessed (e ∷ es) s = put_entries dirty accessed es (put_entry dirty accessed e s)

-- drm_gem_shmem_freebsd_put_pages; an array holds `npages size` entries.
unfoldable pub put_backing : ℕ → Entries → Bool → Bool → Memory → Memory
put_backing size es dirty accessed s = put_entries dirty accessed es (record s {
  teardown_objects = (s.teardown_objects + 1) % ulong_mod;
  teardown_pages = (s.teardown_pages + npages size) % ulong_mod;
})

-- drm_gem_shmem_set_pages_memattr, with `wc` for VM_MEMATTR_WRITE_COMBINING
unfoldable pub set_memattr : Bool → Entries → Memory → Memory
set_memattr wc [] s = s
set_memattr wc (none ∷ es) s = set_memattr wc es s
set_memattr wc (some p ∷ es) s =
    set_memattr wc es (record s { combining = update s.combining p wc })
