-- ===== src/Vm/Mm.antt =====
-- drm_mm, the range allocator of drm-kmod, which lima_vm.c calls and this repository does not hold:
-- its operations, and what the driver relies on of them.
use lima_freebsd.Base.{ℕ, ◌+◌, ◌^◌, ◌%◌, ◌≤◌, ◌<◌, ◌≡◌, Result, ok}

pub record Mm : Type 1 where
  pub Space : Type 0
  -- `drm_mm_init`: the start and the size of the range.
  pub init : ℕ → ℕ → Space
  -- `drm_mm_insert_node`: the start of the new node, whose size is the one asked for.
  pub insert : Space → ℕ → Result (ℕ × Space)
  -- `drm_mm_remove_node`, of the node that starts there.
  pub remove : Space → ℕ → Space

-- Nodes of page-aligned sizes start on a page; they lie in the range, which ends at or below 4 GiB;
-- and removing the node just inserted gives the ranges that were free before.
pub record MmLaws (m : Mm) : Type 0 where
  pub insert_aligned :
      (s s' : m.Space) (n a : ℕ) → n % 4096 ≡ 0 → m.insert s n ≡ ok (a, s') → a % 4096 ≡ 0
  pub insert_fits : (s s' : m.Space) (n a : ℕ) → m.insert s n ≡ ok (a, s') → a + n ≤ 2 ^ 32
  pub insert_positive : (s s' : m.Space) (n a : ℕ) → m.insert s n ≡ ok (a, s') → 0 < n
  pub remove_insert : (s s' : m.Space) (n a : ℕ) → m.insert s n ≡ ok (a, s') → m.remove s' a ≡ s
