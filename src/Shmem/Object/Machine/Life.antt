-- ===== src/Shmem/Object/Machine/Life.antt =====
-- The invariant of the machine over every history of an object, and what it says of the calls that
-- drop something and of the end of the object.
use lima_freebsd.Base.{
  ℕ, ◌+◌, ◌-◌, ◌<◌, ◌≡◌, refl, sym, ap, ◌∙◌, subst, none, arith, true, false, ltb, Option-cases,
  inl, inr, ok, err, is_some, Run, done, and_then,
}
use lima_freebsd.Shmem.Pages.{Memory}
use lima_freebsd.Shmem.Object.{
  Object, put_pages, pin, unpin, vunmap, is_purgeable, purge, vm_close, mmap, free,
}
use lima_freebsd.Shmem.Object.Counts.{Consistent, put_pages-Consistent}
use lima_freebsd.Shmem.Object.Machine.{Step, System, Inv, holders_of, bit, held_by, put_in}
use lima_freebsd.Shmem.Object.Machine.Keep.{get_pages-Inv, put_pages-Inv, vm_open-Inv, madvise-Inv}
use lima_freebsd.Shmem.Object.Machine.Mappings.{vmap-Inv, vunmap-Inv}
use lima_freebsd.Shmem.Object.Machine.Tables.{get_pages_sgt-Inv, purge-Inv}

done-inj : {A : Type 0} {x y : A} → done x ≡ done y → x ≡ y
done-inj h = cc

-- A call that is known to return, and its answer, which keeps the invariant.
answered :
    {base : ℕ → ℕ} {pins maps : ℕ} {r : Run (Object × Memory)} {p : Object × Memory}
    → (o : Object) × (s : Memory) × (r ≡ done (o, s)) × Inv base (put_in (o, s) pins maps)
    → r ≡ done p
    → Inv base (put_in p pins maps)
answered {base} {pins} {maps} (o, s, run, inv) e =
    subst (λ p. Inv base (put_in p pins maps)) (done-inj (sym run ∙ e)) inv

answered_with :
    {R : Type 0} {base : ℕ → ℕ} {pins maps : ℕ} {r : Run (R × Object × Memory)}
    {p : R × Object × Memory}
    → (x : R) × (o : Object) × (s : Memory) × (r ≡ done (x, o, s))
      × Inv base (put_in (o, s) pins maps)
    → r ≡ done p
    → Inv base (put_in (p.1, p.2) pins maps)
answered_with {base} {pins} {maps} (x, o, s, run, inv) e =
    subst (λ p. Inv base (put_in (p.1, p.2) pins maps)) (done-inj (sym run ∙ e)) inv

-- Every call of the machine keeps the invariant.
pub Step-Inv : {base : ℕ → ℕ} {a b : System} → Inv base a → Step a b → Inv base b
unfolding pin unpin mmap vm_close
Step-Inv {base} {a} v (Step.pinned (err e) k r o s room h) =
    subst (λ t. Inv base (put_in (t.1, t.2) (held_by t.0 a.pins) a.maps)) h v
Step-Inv {base} {a} v (Step.pinned (ok u) k r o s room h) =
    subst (λ t. Inv base (put_in (t.1, t.2) (held_by t.0 a.pins) a.maps)) h
      (get_pages-Inv base a v k room).0
Step-Inv {base} {a} v (Step.unpinned n o s e h) =
    answered
      (put_pages-Inv base a v (n + a.maps + bit (ltb 0 a.o.vmap_use_count) + bit (is_some a.o.sgt))
        n a.maps (omega (arith, e)) refl)
      h
Step-Inv {base} {a} v (Step.mmapped k r o s room h) =
    subst (λ t. Inv base (put_in (t.1, t.2) a.pins (held_by t.0 a.maps))) h
      (get_pages-Inv base a v k room).1
Step-Inv {base} {a} v (Step.opened room h) = vm_open-Inv base a v room h
Step-Inv {base} {a} v (Step.closed n o s e h) =
    answered
      (put_pages-Inv base a v (a.pins + n + bit (ltb 0 a.o.vmap_use_count) + bit (is_some a.o.sgt))
        a.pins n (omega (arith, e)) refl)
      h
Step-Inv {base} {a} v (Step.vmapped k m r o s room small h) =
    answered_with (vmap-Inv base a v k m room small) h
Step-Inv {base} {a} v (Step.vunmapped o s h) = answered (vunmap-Inv base a v) h
Step-Inv {base} {a} v (Step.scattered lock k g m r o s room h) =
    answered_with (get_pages_sgt-Inv base a v lock k g m room) h
Step-Inv {base} {a} v (Step.advised m) = madvise-Inv base a v m
Step-Inv {base} {a} v (Step.purged o s p h) = answered (purge-Inv base a v p) h

-- An object that nobody has used, among pages that others may hold.
pub record IsFresh (a : System) : Type 0 where
  pub native : a.o.imported ≡ false
  pub no_pages : a.o.pages ≡ none
  pub no_users : a.o.pages_use_count ≡ 0
  pub no_mappings : a.o.vmap_use_count ≡ 0
  pub no_vaddr : a.o.vaddr ≡ none
  pub no_table : a.o.sgt ≡ none
  pub no_pins : a.pins ≡ 0
  pub no_maps : a.maps ≡ 0

pub data History : System → System → Type 0 where
  start : {a : System} → History a a
  then : {a b c : System} → History a b → Step b c → History a c

IsFresh-Inv : (a : System) → IsFresh a → Inv a.s.wires a
IsFresh-Inv a f = record {
  native = f.native;
  consistent = record {
    counted = ground (arith, f);
    present = ground (arith, f);
    wired = λ p. ground (arith, f);
  };
  mapped = ground (arith, f);
}

-- After any history of calls on a fresh object, the page count is the number of pins, user mappings
-- and of the kernel mapping and the scatter table if they exist; the page array is there exactly
-- while that number is positive; the kernel address exactly while there is a kernel mapping; and each
-- page has the wirings it had before, and one for each place in the array.
pub History-Inv : {a b : System} → IsFresh a → History a b → Inv a.s.wires b
History-Inv {a} f History.start = IsFresh-Inv a f
History-Inv f (History.then h s) = Step-Inv (History-Inv f h) s

-- The call comes to a value.
abbrev pub Returns : Run (Object × Memory) → Type 0
Returns r = (p : Object × Memory) × (r ≡ done p)

answer :
    {base : ℕ → ℕ} {pins maps : ℕ} {r : Run (Object × Memory)}
    → (o : Object) × (s : Memory) × (r ≡ done (o, s)) × Inv base (put_in (o, s) pins maps)
    → Returns r
answer (o, s, e, i) = ((o, s), e)

drops : {base : ℕ → ℕ} {b : System} → Inv base b → 0 < holders_of b → Returns (put_pages b.o b.s)
drops {base} {b} v h =
    let (o, s, e, c, same) =
      put_pages-Consistent base (holders_of b - 1) b.o b.s
        (subst (λ n. Consistent base n b.o b.s) (omega arith) v.consistent) in
    ((o, s), e)

-- The calls that drop something, and who may make each.
pub data Drop : Type 0 where
  unpin_call close_call vunmap_call purge_call : Drop

abbrev pub drop_call : Drop → Object → Memory → Run (Object × Memory)
drop_call unpin_call = unpin
drop_call close_call = vm_close
drop_call vunmap_call = vunmap
drop_call purge_call = purge

abbrev pub MayDrop : Drop → System → Type 0
MayDrop unpin_call b = 0 < b.pins
MayDrop close_call b = 0 < b.maps
MayDrop vunmap_call b = Unit
MayDrop purge_call b = is_purgeable b.o ≡ true

-- After any history of calls on a fresh object, a caller that holds a pin can unpin, one that holds a
-- user mapping can close it, and anyone can unmap, and purge what is purgeable: the call returns, and
-- follows no NULL page array.
pub History-Returns :
    {a b : System} (call : Drop)
    → IsFresh a
    → History a b
    → MayDrop call b
    → Returns (drop_call call b.o b.s)
unfolding unpin vm_close
History-Returns {a} {b} unpin_call f h p = drops (History-Inv f h) (omega arith)
History-Returns {a} {b} close_call f h p = drops (History-Inv f h) (omega arith)
History-Returns {a} {b} vunmap_call f h p = answer (vunmap-Inv a.s.wires b (History-Inv f h))
History-Returns {a} {b} purge_call f h p = answer (purge-Inv a.s.wires b (History-Inv f h) p)

pub free_unused :
    {base : ℕ → ℕ} (o : Object) (s : Memory)
    → o.imported ≡ false
    → Consistent base 0 o s
    → (s' : Memory) × (free o s ≡ done (0, s')) × ((p : ℕ) → s'.wires p ≡ base p)
unfolding free
free_unused o s nat c =
    (s, ground (arith, nat, c.present, c.counted), λ p. ground (arith, c.wired p, c.present))

pub free_last :
    {base : ℕ → ℕ} (o : Object) (s : Memory)
    → o.imported ≡ false
    → Consistent base 1 o s
    → (s' : Memory) × (free o s ≡ done (0, s')) × ((p : ℕ) → s'.wires p ≡ base p)
unfolding free
free_last {base} o s nat c =
    let (o', s', run, d, same) = put_pages-Consistent base 0 o s c in
    (
      s',
      freed o s o' s' nat c.present run ∙ ap (λ n. done (n, s')) d.counted,
      λ p. ground (arith, d.wired p, d.present),
    )
  where
    freed :
        (o : Object) (s : Memory) (o' : Object) (s' : Memory)
        → o.imported ≡ false
        → is_some o.pages ≡ true
        → put_pages o s ≡ done (o', s')
        → free o s ≡ done (o'.pages_use_count, s')
    freed o s o' s' nat e run =
        start
        ∙ ap (λ (r : Run (Object × Memory)). and_then r λ q. done (q.0.pages_use_count, q.1)) run
      where
        start : free o s ≡ and_then (put_pages o s) λ q. done (q.0.pages_use_count, q.1)
        start = ground (arith, nat, e)

-- After any history of calls on a fresh object, when the pins, the user mappings and the kernel
-- mapping are gone, freeing the object leaves no count and every page with the wirings it had before.
pub History-free :
    {a b : System}
    → IsFresh a
    → History a b
    → b.pins ≡ 0
    → b.maps ≡ 0
    → b.o.vmap_use_count ≡ 0
    → (s : Memory) × (free b.o b.s ≡ done (0, s)) × ((p : ℕ) → s.wires p ≡ a.s.wires p)
History-free {a} {b} f h z1 z2 z3 =
    let v = History-Inv f h in
    elim (Option-cases b.o.sgt) [
      | inl e ↦
          free_unused b.o b.s v.native
            (subst (λ n. Consistent a.s.wires n b.o b.s) (rw (z1, z2, z3, e) refl) v.consistent)
      | inr (t, e) ↦
          free_last b.o b.s v.native
            (subst (λ n. Consistent a.s.wires n b.o b.s) (rw (z1, z2, z3, e) refl) v.consistent)
    ]
