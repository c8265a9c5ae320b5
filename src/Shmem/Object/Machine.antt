-- ===== src/Shmem/Object/Machine.antt =====
-- The life of an object: its functions as the steps of a machine that also counts what the callers
-- hold, each caller dropping only what it took.
pub mod Keep
pub mod Mappings
pub mod Tables
pub mod Life
use lima_freebsd.Base.{
  ℕ, zero, suc, ◌+◌, ◌-◌, ◌*◌, ◌/◌, ◌%◌, ◌<◌, ◌≤◌, ◌≡◌, ◌≢◌, refl, sym, ap, ◌∙◌, Option, none, some,
  List, [], ◌∷◌, arith, Bool, true, false, ltb, leb, not, ◌==◌, if◌then◌else◌, update, Result-cases,
  Bool-cases, Option-cases, inl, inr, Errno, ok, err, Result, Status, success, is_some, Run, done,
}
use lima_freebsd.Base.Int.{ℤ}
use lima_freebsd.Shmem.Logic.{npages, uint_mod}
use lima_freebsd.Shmem.Pages.{Memory, Kernel, Entries}
use lima_freebsd.Shmem.Object.{
  Object, get_pages, put_pages, pin, unpin, vmap, vmap_native, vunmap, madvise, is_purgeable, purge,
  vm_open, vm_close, mmap, get_pages_sgt, get_pages_sgt_locked, free,
}
use lima_freebsd.Shmem.Object.Counts.{
  Consistent, SameRest, holders, page_uses, get_pages-Consistent, put_pages-Consistent,
}

-- The object and the pages, and the pins and user mappings that callers hold.
pub record System : Type 0 where
  pub o : Object
  pub s : Memory
  pub pins : ℕ
  pub maps : ℕ

abbrev pub bit : Bool → ℕ
bit true = 1
bit false = 0

-- Everyone who holds the pages: pins, user mappings, the kernel mapping, the scatter table.
abbrev pub holders_of : System → ℕ
holders_of a = a.pins + a.maps + bit (ltb 0 a.o.vmap_use_count) + bit (is_some a.o.sgt)

pub record Inv (base : ℕ → ℕ) (a : System) : Type 0 where
  pub native : a.o.imported ≡ false
  pub consistent : Consistent base (holders_of a) a.o a.s
  pub mapped : is_some a.o.vaddr ≡ ltb 0 a.o.vmap_use_count

abbrev pub held_by : Status → ℕ → ℕ
held_by r n = holders r n

abbrev pub put_in : Object × Memory → ℕ → ℕ → System
put_in (o, s) pins maps = record { o = o; s = s; pins = pins; maps = maps }

-- One call. A caller that has nothing to drop does not drop; the counts stay below 2 ^ 32.
pub data Step (a : System) : System → Type 0 where
  pinned :
      (lock : Status) (k : Kernel) (r : Status) (o : Object) (s : Memory)
      → holders_of a + 1 < uint_mod
      → pin lock k a.o a.s ≡ (r, o, s)
      → Step a (put_in (o, s) (held_by r a.pins) a.maps)
  unpinned :
      (n : ℕ) (o : Object) (s : Memory)
      → a.pins ≡ suc n
      → unpin a.o a.s ≡ done (o, s)
      → Step a (put_in (o, s) n a.maps)
  mmapped :
      (k : Kernel) (r : Status) (o : Object) (s : Memory)
      → holders_of a + 1 < uint_mod
      → mmap k a.o a.s ≡ (r, o, s)
      → Step a (put_in (o, s) a.pins (held_by r a.maps))
  opened :
      holders_of a + 1 < uint_mod
      → 0 < a.maps
      → Step a (put_in (vm_open a.o, a.s) a.pins (suc a.maps))
  closed :
      (n : ℕ) (o : Object) (s : Memory)
      → a.maps ≡ suc n
      → vm_close a.o a.s ≡ done (o, s)
      → Step a (put_in (o, s) a.pins n)
  vmapped :
      (k : Kernel) (v : Option ℕ) (r : Result (Option ℕ)) (o : Object) (s : Memory)
      → holders_of a + 1 < uint_mod
      → a.o.vmap_use_count + 1 < uint_mod
      → vmap_native k v a.o a.s ≡ done (r, o, s)
      → Step a (put_in (o, s) a.pins a.maps)
  vunmapped :
      (o : Object) (s : Memory)
      → vunmap a.o a.s ≡ done (o, s)
      → Step a (put_in (o, s) a.pins a.maps)
  scattered :
      (lock : Status) (k : Kernel) (g : Result ℕ) (m : Status) (r : Result ℕ) (o : Object)
      (s : Memory)
      → holders_of a + 1 < uint_mod
      → get_pages_sgt lock k g m a.o a.s ≡ done (r, o, s)
      → Step a (put_in (o, s) a.pins a.maps)
  advised : (madv : ℤ) → Step a (put_in ((madvise madv a.o).1, a.s) a.pins a.maps)
  purged :
      (o : Object) (s : Memory)
      → is_purgeable a.o ≡ true
      → purge a.o a.s ≡ done (o, s)
      → Step a (put_in (o, s) a.pins a.maps)
