-- ===== src/Gem/Submit/Loops.antt =====
-- What each loop of a submission does to the counts, object by object.
use lima_freebsd.Base.{
  times, ℕ, ◌+◌, ◌-◌, ◌<◌, ◌≡◌, refl, List, [], ◌∷◌, length, Option, none, some, arith, ◌==◌,
  Bool-cases, inl, inr,
}
use lima_freebsd.Gem.Submit.{
  u32_mod, Refs, object_get, object_put, va_get, va_put, get_all, put_all, lookup_all, unwind_all,
  del_all,
}

-- `s'` has the counts of `s`, with `bs` taken from the objects and `vs` from the address space.
pub record Took (bs vs : List ℕ) (s s' : Refs) : Type 0 where
  pub objects : (c : ℕ) → s'.obj c ≡ s.obj c + times c bs
  pub mappings : (c : ℕ) → s'.va c ≡ s.va c + times c vs
  pub same_vm : s'.vm ≡ s.vm
  pub same_sync : s'.sync ≡ s.sync

pub get_all-Took : (bs : List ℕ) (s : Refs) → Took bs [] s (get_all bs s)
unfolding get_all times
get_all-Took [] s = record {
  objects = λ c. omega arith;
  mappings = λ c. omega arith;
  same_vm = refl;
  same_sync = refl;
}
get_all-Took (b ∷ bs) s =
    let t = get_all-Took bs (object_get b s) in
    record {
      objects = λ c. ground (arith, t.objects c);
      mappings = t.mappings;
      same_vm = t.same_vm;
      same_sync = t.same_sync;
    }

-- `s'` has the counts of `s`, with `bs` given back to the objects and `vs` to the address space.
pub record Gave (bs vs : List ℕ) (s s' : Refs) : Type 0 where
  pub objects : (c : ℕ) → s'.obj c ≡ s.obj c - times c bs
  pub mappings : (c : ℕ) → s'.va c ≡ s.va c - times c vs
  pub same_vm : s'.vm ≡ s.vm
  pub same_sync : s'.sync ≡ s.sync

pub put_all-Gave : (bs : List ℕ) (s : Refs) → Gave bs [] s (put_all bs s)
unfolding put_all times
put_all-Gave [] s = record {
  objects = λ c. omega arith;
  mappings = λ c. omega arith;
  same_vm = refl;
  same_sync = refl;
}
put_all-Gave (b ∷ bs) s =
    let g = put_all-Gave bs (object_put b s) in
    record {
      objects = λ c. ground (arith, g.objects c);
      mappings = g.mappings;
      same_vm = g.same_vm;
      same_sync = g.same_sync;
    }

pub del_all-Gave : (bs : List ℕ) (s : Refs) → Gave [] bs s (del_all bs s)
unfolding del_all times
del_all-Gave [] s = record {
  objects = λ c. omega arith;
  mappings = λ c. omega arith;
  same_vm = refl;
  same_sync = refl;
}
del_all-Gave (b ∷ bs) s =
    let g = del_all-Gave bs (va_put b s) in
    record {
      objects = g.objects;
      mappings = λ c. ground (arith, g.mappings c);
      same_vm = g.same_vm;
      same_sync = g.same_sync;
    }

pub unwind_all-Gave : (bs : List ℕ) (s : Refs) → Gave bs bs s (unwind_all bs s)
unfolding unwind_all times
unwind_all-Gave [] s = record {
  objects = λ c. omega arith;
  mappings = λ c. omega arith;
  same_vm = refl;
  same_sync = refl;
}
unwind_all-Gave (b ∷ bs) s =
    let g = unwind_all-Gave bs (object_put b (va_put b s)) in
    record {
      objects = λ c. ground (arith, g.objects c);
      mappings = λ c. ground (arith, g.mappings c);
      same_vm = g.same_vm;
      same_sync = g.same_sync;
    }

-- Whether it fails or not, the first loop has taken both references of every buffer that it entered
-- in `bos`, and of no other.
pub lookup_all-Took :
    (hs : List (Option ℕ)) (s : Refs)
    → ((c : ℕ) → s.va c + length hs < u32_mod)
    → let (r, bs, s') = lookup_all hs s in Took bs bs s s'
unfolding lookup_all times
lookup_all-Took [] s room = record {
  objects = λ c. omega arith;
  mappings = λ c. omega arith;
  same_vm = refl;
  same_sync = refl;
}
lookup_all-Took (none ∷ hs) s room = record {
  objects = λ c. omega arith;
  mappings = λ c. omega arith;
  same_vm = refl;
  same_sync = refl;
}
lookup_all-Took (some b ∷ hs) s room = elim (Bool-cases (s.va b == 0)) [
  | inl missing ↦ rw missing (record {
    objects = λ c. ground arith;
    mappings = λ c. omega arith;
    same_vm = refl;
    same_sync = refl;
  })
  | inr there ↦
      let t =
        lookup_all-Took hs (va_get b (object_get b s)) (λ c. ground (arith, room c, room b)) in
      rw there (record {
        objects = λ c. ground (arith, t.objects c);
        mappings = λ c. ground (arith, t.mappings c, room b);
        same_vm = t.same_vm;
        same_sync = t.same_sync;
      })
]
