-- ===== src/Gem/Handle/Life.antt =====
-- A creation takes what the object needs and, where it fails, gives it all back.
use lima_freebsd.Base.{
  ℕ, suc, ◌+◌, ◌≡◌, refl, ap, ◌∙◌, subst, none, some, Bool, true, false, arith, is_some, ◌⊎◌, inl,
  inr, Result-cases, Option-cases, Result, ok, err, Status, Run, done,
}
use lima_freebsd.Shmem.Pages.{Memory, Kernel}
use lima_freebsd.Shmem.Object.{Object, get_pages, get_pages_sgt, map_table, free}
use lima_freebsd.Shmem.Object.Counts.{
  Consistent, page_uses, holders, get_pages-Consistent, put_pages-Consistent,
}
use lima_freebsd.Shmem.Object.Machine.Tables.{map_table_cases, locked_err, locked_ok}
use lima_freebsd.Shmem.Object.Machine.Life.{free_unused, free_last}
use lima_freebsd.Shmem.Create.{Ledger, create, err_release, free_object, object_put, hand_out}
use lima_freebsd.Gem.Heap.{Heap, page_array, heap_alloc, populate, after_read, build_sgt, map_heap}
use lima_freebsd.Gem.Heap.Count.{has, heap_alloc_count}
use lima_freebsd.Shmem.Create.Made.{Even, Made, create-Made}
use lima_freebsd.Gem.Heap.Wires.{IsPopulated, WiresPost}
use lima_freebsd.Gem.Heap.Calls.{heap_alloc-WiresPost}
use lima_freebsd.Gem.Handle.{Answers, heap_of, of_heap, after, fill, create_handle}

-- An object of which nobody but its own table or array holds the pages.
record Sound (base : ℕ → ℕ) (o : Object) (m : Memory) : Type 0 where
  native : o.imported ≡ false
  counted : Consistent base 0 o m ⊎ Consistent base 1 o m

-- A creation that fails leaves as many objects as there were and every page with its wirings. One that
-- succeeds leaves one object more, and each page wired once more for each place in its array.
abbrev pub Created : (ℕ → ℕ) → ℕ → Result Object → Memory → Ledger → Type 0
Created base n (ok o) m l = Even (suc n) l × ((p : ℕ) → m.wires p ≡ base p + page_uses p o.pages)
Created base n (err e) m l = Even n l × ((p : ℕ) → m.wires p ≡ base p)

Sound-wires :
    {base : ℕ → ℕ} (o : Object) (m : Memory)
    → Sound base o m
    → (p : ℕ) → m.wires p ≡ base p + page_uses p o.pages
Sound-wires o m v p = elim v.counted [ inl c ↦ c.wired p | inr c ↦ c.wired p ]

free-Sound :
    {base : ℕ → ℕ} (o : Object) (m : Memory)
    → Sound base o m
    → (m' : Memory) × (free o m ≡ done (0, m')) × ((p : ℕ) → m'.wires p ≡ base p)
free-Sound o m v = elim v.counted [
  | inl c ↦ free_unused o m v.native c
  | inr c ↦ free_last o m v.native c
]

hand_out-Created :
    (base : ℕ → ℕ) (n : ℕ) (r : Status) (o : Object) (m : Memory) (l : Ledger)
    → Sound base o m
    → Even (suc n) l
    → (q : Result Object) × (m' : Memory) × (l' : Ledger) × (hand_out r o m l ≡ done (q, m', l'))
      × Created base n q m' l'
unfolding hand_out free_object object_put
hand_out-Created base n (ok u) o m l v h = (ok o, m, l, refl, (h, Sound-wires o m v))
hand_out-Created base n (err e) o m l v h =
    let (m', run, w) = free-Sound o m v in
    (
      err e,
      m',
      err_release l,
      rw run refl,
      (record { allocated = omega (arith, h.allocated); set_up = omega (arith, h.set_up) }, w),
    )

-- The table of an object that has just got its pages.
mapped-Sound :
    (base : ℕ → ℕ) (g : Result ℕ) (mapped : Status) (o : Object) (m : Memory)
    → o.imported ≡ false
    → Consistent base 1 o m
    → (r : Result ℕ) × (o' : Object) × (m' : Memory) × (map_table g mapped o m ≡ done (r, o', m'))
      × Sound base o' m'
mapped-Sound base g mapped o m nat c =
    let (o', m', run, d, same) = put_pages-Consistent base 0 o m c in
    elim (map_table_cases g mapped o m o' m' run) [
      | inl (e, f) ↦ (err e, o', m', f, record { native = same.imported ∙ nat; counted = inl d })
      | inr (t, f) ↦ (
        ok t,
        record o { sgt = some t },
        m,
        f,
        record {
          native = nat;
          counted = inr (record { counted = c.counted; present = c.present; wired = c.wired });
        },
      )
    ]

-- The pages and the table of a new object.
table-Sound :
    (base : ℕ → ℕ) (lock : Status) (k : Kernel) (g : Result ℕ) (mapped : Status) (o : Object)
    (m : Memory)
    → o.imported ≡ false
    → o.sgt ≡ none
    → Consistent base 0 o m
    → (r : Result ℕ) × (o' : Object) × (m' : Memory) × (get_pages_sgt lock k g mapped o m
        ≡ done (r, o', m'))
      × Sound base o' m'
unfolding get_pages_sgt
table-Sound base (err e) k g mapped o m nat z c =
    (err e, o, m, refl, record { native = nat; counted = inl c })
table-Sound base (ok u) k g mapped o m nat z c =
    let (d, same) = get_pages-Consistent base 0 k o m (omega arith) c in
    let o1 = (get_pages k o m).1 in
    let m1 = (get_pages k o m).2 in
    let native : o1.imported ≡ false = same.imported ∙ nat in
    elim (Result-cases (get_pages k o m).0) [
      | inr (e, f) ↦ (
        err e,
        o1,
        m1,
        locked_err k g mapped o m e z f,
        record {
          native = native;
          counted = inl (subst (λ r. Consistent base (holders r 0) o1 m1) f d);
        },
      )
      | inl (v, f) ↦
          let (r, o2, m2, run, s) =
            mapped-Sound base g mapped o1 m1 native
              (subst (λ r. Consistent base (holders r 0) o1 m1) f d) in
          (r, o2, m2, locked_ok k g mapped o m v z f ∙ run, s)
    ]

post_wires :
    (base : ℕ → ℕ) (r : Status) (h : Heap) (m : Memory)
    → WiresPost base r h m
    → (p : ℕ) → m.wires p ≡ base p + page_uses p h.pages
post_wires base (ok u) h m v = v.wired
post_wires base (err e) h m v = v

counted-Sound :
    (base : ℕ → ℕ) (o : Object) (m : Memory)
    → o.imported ≡ false
    → o.pages_use_count ≡ has o.pages
    → ((p : ℕ) → m.wires p ≡ base p + page_uses p o.pages)
    → Sound base o m
counted-Sound base o m nat c w = record {
  native = nat;
  counted = elim (Option-cases o.pages) [
    | inl e ↦ inl (record { counted = c ∙ ap has e; present = rw e refl; wired = w })
    | inr (es, e) ↦ inr (record { counted = c ∙ ap has e; present = rw e refl; wired = w })
  ];
}

-- The pages of a new heap.
heap-Sound :
    (base : ℕ → ℕ) (a : lima_freebsd.Gem.Heap.Answers) (o : Object) (m : Memory)
    → o.imported ≡ false
    → o.pages ≡ none
    → o.pages_use_count ≡ 0
    → ((p : ℕ) → m.wires p ≡ base p)
    → let (r, h, m') = heap_alloc a (heap_of o) m in Sound base (of_heap h o) m'
heap-Sound base a o m nat z c w =
    let fresh : IsPopulated base (heap_of o) m = record {
      wired = λ p. ground (arith, z, w p);
      empty = λ es e. absurd cc;
      whole = λ es e. absurd cc;
    } in
    counted-Sound base _ _ nat (heap_alloc_count a (heap_of o) m (ground (arith, z, c)))
      (post_wires base _ _ _ (heap_alloc-WiresPost base a (heap_of o) m fresh))

CreatedBy : (ℕ → ℕ) → ℕ → Run (Result Object × Memory × Ledger) → Type 0
CreatedBy base n run =
    (q : Result Object) × (m : Memory) × (l : Ledger) × (run ≡ done (q, m, l))
    × Created base n q m l

fill-Created :
    (is_heap : Bool) (a : Answers) (o : Object) (n : ℕ) (m : Memory) (l : Ledger)
    → Made n (ok o) l
    → CreatedBy m.wires n (fill is_heap a o m l)
unfolding fill CreatedBy
fill-Created true a o n m l (h, nat, z, c, t) =
    hand_out-Created m.wires n _ _ _ l (heap-Sound m.wires a.heap o m nat z c (λ p. refl)) h
fill-Created false a o n m l (h, nat, z, c, t) =
    let fresh : Consistent m.wires 0 o m = record {
      counted = c;
      present = ap is_some z;
      wired = λ p. ground (arith, z);
    } in
    let (r, o1, m1, run, s) =
      table-Sound m.wires a.lock a.kernel a.pages_to_sg a.mapped o m nat t fresh in
    rw run (hand_out-Created m.wires n (after r a.handle) o1 m1 l s h)

-- A creation of a buffer, heap or not, comes to an end without a fault. Where it fails, at any of its
-- steps, as many objects are allocated and set up as before, and every page has the wirings it had.
-- Where it succeeds, there is one object more, which the handle has, and each page is wired once more
-- for each place in the object's array.
pub create_handle-Created :
    (is_heap : Bool) (a : Answers) (size n : ℕ) (m : Memory) (l : Ledger)
    → Even n l
    → (q : Result Object) × (m' : Memory) × (l' : Ledger) × (create_handle is_heap a size m l
        ≡ done (q, m', l'))
      × Created m.wires n q m' l'
unfolding CreatedBy create_handle
create_handle-Created is_heap a size n m l h =
    let made = create-Made false a.create size n l h in
    let (r, l1) = create false a.create size l in
    elim (Result-cases r) [
      | inr (e, f) ↦
          rw (f, create_handle) (err e, m, l1, refl, (subst (λ r. Made n r l1) f made, λ p. refl))
      | inl (o, f) ↦
          rw (f, create_handle) (fill-Created is_heap a o n m l1 (subst (λ r. Made n r l1) f made))
    ]
