-- ===== src/Shmem/Logic/Laws.antt =====
-- What the pure helpers guarantee.
use lima_freebsd.Base.{
  ℕ, All, ◌+◌, ◌*◌, ◌%◌, ◌<◌, ◌≤◌, ◌≡◌, ◌↔◌, refl, some, List, [], ◌∷◌, arith, Bool, true, false,
  if◌then◌else◌,
}
use lima_freebsd.Base.Int.{ℤ, is_negative}
use lima_freebsd.Shmem.Logic.{
  page_size, ulong_mod, uint_mod, npages, align_size, underflow, release, keep, ref_first, unref,
  fault_index, madvise_apply,
}

-- drm_gem_shmem_align_size gives the least multiple of the page size that is no smaller than the
-- request, and drm_gem_shmem_npages the number of its pages, for a request that a page more does not
-- take past 2 ^ 64.
pub align_size_least :
    (size : ℕ)
    → size + page_size ≤ ulong_mod
    → (align_size size % page_size ≡ 0)
      × (size ≤ align_size size)
      × (align_size size < size + page_size)
      × (npages (align_size size) * page_size ≡ align_size size)
unfolding align_size
align_size_least size h = omega arith

-- drm_gem_shmem_fault_index answers with an index exactly for the addresses of the object's pages, and
-- the index is that of the page that holds the address.
pub fault_index_iff :
    (address vm_start n i : ℕ)
    → (fault_index address vm_start n ≡ some i) ↔ (
        (i < n) × (vm_start + i * page_size ≤ address) × (address < vm_start + (i + 1) * page_size))
unfolding fault_index
fault_index_iff address vm_start n i = (λ h. ground arith, λ h. ground arith)

-- The runs of a counter: `n` references taken and then dropped report the first and the last, and
-- no other.
pub unref-ref_first :
    (n : ℕ)
    → n + 1 < uint_mod
    → (unref (ref_first n).1).1 ≡ n
      × ((unref (ref_first n).1).0 ≡ (if (ref_first n).0 then release else keep))
unfolding unref ref_first
unref-ref_first n h = ground arith

-- An underflow is reported and never wraps.
pub unref_underflow : (n : ℕ) → ((unref n).0 ≡ underflow) ↔ (n ≡ 0)
unfolding unref
unref_underflow n = ground arith

-- The requests in turn: the state that is left, and whether each found the object usable.
unfoldable pub madvise_all : ℤ → List ℤ → ℤ × List Bool
madvise_all madv [] = (madv, [])
madvise_all madv (r ∷ rs) =
    let (usable, madv') = madvise_apply madv r in
    let (last, replies) = madvise_all madv' rs in (last, usable ∷ replies)

-- Through any requests to drm_gem_shmem_madvise_apply a purged object keeps its state, and every
-- request is told that the object is not usable.
pub madvise_all_purged :
    (madv : ℤ) (requests : List ℤ)
    → is_negative madv ≡ true
    → ((madvise_all madv requests).0 ≡ madv) × All (λ b. b ≡ false) (madvise_all madv requests).1
unfolding madvise_all madvise_apply
madvise_all_purged madv [] h = (refl, tt)
madvise_all_purged madv (r ∷ rs) h = ground (arith, madvise_all_purged madv rs h)
