-- ===== src/Vm/Life/Whole.antt =====
-- The life of an address space from its creation to its release.
use lima_freebsd.Base.{times, ℕ, ◌%◌, ◌≡◌, some, List, [], ◌∷◌, arith, Bool}
use lima_freebsd.Vm.Mm.{Mm}
use lima_freebsd.Vm.Table.{u32_mod, Tables, Dma, map_page}
use lima_freebsd.Vm.Life.{Device, Object, create, release}
use lima_freebsd.Vm.Life.Account.{
  Accounted, map_page-Accounted, create-Accounted, release-Accounted,
}

-- The `(pa, va)` pairs mapped in turn, whatever each call returns.
unfoldable pub map_all : List (ℕ × ℕ) → Tables → Dma → Tables × Dma
map_all [] t d = (t, d)
map_all ((pa, va) ∷ ps) t d = let (r, t', d') = map_page t d pa (va % u32_mod) in map_all ps t' d'

map_all-Accounted :
    (ps : List (ℕ × ℕ)) (t : Tables) (d : Dma) (rest : List ℕ)
    → Accounted t rest d.live
    → Accounted (map_all ps t d).0 rest (map_all ps t d).1.live
unfolding map_all
map_all-Accounted [] t d rest acc = acc
map_all-Accounted ((pa, va) ∷ ps) t d rest acc =
    map_all-Accounted ps (map_page t d pa (va % u32_mod)).1 (map_page t d pa (va % u32_mod)).2 rest
      (map_page-Accounted t d pa (va % u32_mod) rest (omega arith) acc)

-- The life of an address space, from a lima_vm_create that succeeds through any calls of
-- lima_vm_map_page, failed ones too, to lima_vm_release, leaves each bus address allocated as often as
-- before.
pub release-map_all-create :
    (m : Mm) (kzalloc : Bool) (dev : Device) (d : Dma) (o : Object m) (ps : List (ℕ × ℕ)) (a : ℕ)
    → (create m kzalloc dev d).0 ≡ some o
    → let (t, d') = map_all ps o.tables (create m kzalloc dev d).1 in
      times a (release m (record o { tables = t }) d').live ≡ times a d.live
release-map_all-create m kz dev d o ps a h =
    release-Accounted m (record o { tables = (map_all ps o.tables (create m kz dev d).1).0 })
      (map_all ps o.tables (create m kz dev d).1).1 d.live a
      (map_all-Accounted ps o.tables (create m kz dev d).1 (o.pd_dma ∷ d.live)
        (λ b. create-Accounted m kz dev d o b h))
