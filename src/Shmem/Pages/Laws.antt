-- ===== src/Shmem/Pages/Laws.antt =====
-- The wirings that the page functions take and give back.
use lima_freebsd.Base.{
  ℕ, zero, suc, ◌+◌, ◌-◌, ◌%◌, ◌≡◌, refl, ap, Option, none, some, [], ◌∷◌, arith, Bool, ◌==◌,
  if◌then◌else◌, update, Result-cases, Option-cases, inl, inr, ok, err, Result, length,
}
use lima_freebsd.Shmem.Logic.{npages, ulong_mod}
use lima_freebsd.Shmem.Pages.{
  Memory, Kernel, Entries, wire, unwire, run_entries, wire_run, try_contig, read_pages, get_backing,
  put_entry, put_entries, put_backing, set_memattr,
}

-- How often a page stands in an array.
unfoldable pub uses : ℕ → Entries → ℕ
uses p [] = 0
uses p (none ∷ es) = uses p es
uses p (some q ∷ es) = (if q == p then 1 else 0) + uses p es

-- The uses that a call hands out: those of the array that it returns, none if it fails.
abbrev pub gained : ℕ → Result Entries → ℕ
gained p (ok es) = uses p es
gained p (err e) = 0

read_pages_wires :
    (read : ℕ → Result ℕ) (n i : ℕ) (s : Memory) (p : ℕ)
    → (read_pages read n i s).1.wires p ≡ s.wires p + gained p (read_pages read n i s).0
unfolding read_pages uses wire unwire
read_pages_wires read zero i s p = omega arith
read_pages_wires read (suc n) i s p = elim (Result-cases (read i)) [
  | inr (e, f) ↦ ground arith
  | inl (q, f) ↦ ground (arith, read_pages_wires read n (i + 1) (wire q s) p)
]

wire_run_wires :
    (n q : ℕ) (s : Memory) (p : ℕ) → (wire_run n q s).wires p ≡ s.wires p + uses p (run_entries n q)
unfolding wire_run run_entries uses
wire_run_wires zero q s p = omega arith
wire_run_wires (suc n) q s p = ground (arith, wire_run_wires n (q + 1) (wire q s) p)

abbrev run_uses : ℕ → ℕ → Option ℕ → ℕ
run_uses p n none = 0
run_uses p n (some q) = uses p (run_entries n q)

try_contig_wires :
    (k : Kernel) (n : ℕ) (s : Memory) (p : ℕ)
    → (try_contig k n s).1.wires p ≡ s.wires p + run_uses p n (try_contig k n s).0
unfolding try_contig
try_contig_wires k n s p = elim (Option-cases k.contig_run) [
  | inl e ↦ ground arith
  | inr (q, e) ↦ ground (
    arith,
    wire_run_wires n q (record s { contig_alloc_pages = (s.contig_alloc_pages + n) % ulong_mod }) p,
  )
]

-- drm_gem_shmem_freebsd_get_pages wires each page once for each place that it has in the array that
-- it returns; a call that fails leaves the wirings of every page as they were.
pub get_backing_wires :
    (k : Kernel) (size : ℕ) (s : Memory) (p : ℕ)
    → (get_backing k size s).1.wires p ≡ s.wires p + gained p (get_backing k size s).0
unfolding get_backing
get_backing_wires k size s p = elim (Option-cases (try_contig k (npages size) s).0) [
  | inl e ↦ ground (
    arith,
    try_contig_wires k (npages size) s p,
    read_pages_wires k.read_page (npages size) 0 (try_contig k (npages size) s).1 p,
  )
  | inr (q, e) ↦ ground (arith, try_contig_wires k (npages size) s p)
]

put_entries_wires :
    (dirty accessed : Bool) (es : Entries) (s : Memory) (p : ℕ)
    → (put_entries dirty accessed es s).wires p ≡ s.wires p - uses p es
unfolding put_entries put_entry unwire uses
put_entries_wires dirty accessed [] s p = omega arith
put_entries_wires dirty accessed (none ∷ es) s p = put_entries_wires dirty accessed es s p
put_entries_wires dirty accessed (some q ∷ es) s p =
    ground (arith, put_entries_wires dirty accessed es (put_entry dirty accessed (some q) s) p)

-- And putting them drops just those.
pub put_backing_wires :
    (size : ℕ) (es : Entries) (dirty accessed : Bool) (s : Memory) (p : ℕ)
    → (put_backing size es dirty accessed s).wires p ≡ s.wires p - uses p es
unfolding put_backing
put_backing_wires size es dirty accessed s p = put_entries_wires dirty accessed es _ p

pub set_memattr_wires :
    (wc : Bool) (es : Entries) (s : Memory) → (set_memattr wc es s).wires ≡ s.wires
unfolding set_memattr
set_memattr_wires wc [] s = refl
set_memattr_wires wc (none ∷ es) s = set_memattr_wires wc es s
set_memattr_wires wc (some q ∷ es) s =
    set_memattr_wires wc es (record s { combining = update s.combining q wc })

-- drm_gem_shmem_set_pages_memattr sets the attribute of the pages of the array and of no other.
pub set_memattr_combining :
    (wc : Bool) (es : Entries) (s : Memory) (p : ℕ)
    → (set_memattr wc es s).combining p ≡ (if uses p es == 0 then s.combining p else wc)
unfolding set_memattr uses
set_memattr_combining wc [] s p = refl
set_memattr_combining wc (none ∷ es) s p = set_memattr_combining wc es s p
set_memattr_combining wc (some q ∷ es) s p =
    ground (arith, set_memattr_combining wc es (record s { combining = update s.combining q wc }) p)

-- The number of entries: `npages`.
length-read_pages :
    (read : ℕ → Result ℕ) (n i : ℕ) (s : Memory) (es : Entries)
    → (read_pages read n i s).0 ≡ ok es
    → length es ≡ n
unfolding read_pages
length-read_pages read zero i s es h = ground arith
length-read_pages read (suc n) i s es h = elim (Result-cases (read i)) [
  | inr (e, f) ↦ ground arith
  | inl (q, f) ↦ elim (Result-cases (read_pages read n (i + 1) (wire q s)).0) [
    | inr (e, g) ↦ ground arith
    | inl (ps, g) ↦ ground (arith, length-read_pages read n (i + 1) (wire q s) ps g)
  ]
]

length-run_entries : (n q : ℕ) → length (run_entries n q) ≡ n
unfolding run_entries
length-run_entries zero q = refl
length-run_entries (suc n) q = ap suc (length-run_entries n (q + 1))

pub length-get_backing :
    (k : Kernel) (size : ℕ) (s : Memory) (es : Entries)
    → (get_backing k size s).0 ≡ ok es
    → length es ≡ npages size
unfolding get_backing
length-get_backing k size s es h = elim (Option-cases (try_contig k (npages size) s).0) [
  | inl e ↦
      ground
        (arith, length-read_pages k.read_page (npages size) 0 (try_contig k (npages size) s).1 es)
  | inr (q, e) ↦ ground (arith, length-run_entries (npages size) q)
]

put_entries_combining :
    (dirty accessed : Bool) (es : Entries) (s : Memory)
    → (put_entries dirty accessed es s).combining ≡ s.combining
unfolding put_entries put_entry unwire
put_entries_combining dirty accessed [] s = refl
put_entries_combining dirty accessed (none ∷ es) s = put_entries_combining dirty accessed es s
put_entries_combining dirty accessed (some q ∷ es) s =
    put_entries_combining dirty accessed es (put_entry dirty accessed (some q) s)

pub put_backing_combining :
    (size : ℕ) (es : Entries) (dirty accessed : Bool) (s : Memory)
    → (put_backing size es dirty accessed s).combining ≡ s.combining
unfolding put_backing
put_backing_combining size es dirty accessed s = put_entries_combining dirty accessed es _
