-- ===== src/Platform/Irq/Laws.antt =====
-- Every handler that is set up is torn down, and every resource is released, once a device is detached.
use lima_freebsd.Base.{
  ℕ, zero, suc, ◌+◌, ◌≤◌, ◌<◌, ◌≡◌, refl, sym, ◌∙◌, subst, arith, leb_false→lt, List, [], ◌∷◌,
  Option, none, some, Bool, true, false, ◌==◌, leb, update, Status, Bool-cases, Option-cases,
  Result-cases, inl, inr,
}
use lima_freebsd.Platform.{irq_is_token, irq_index}
use lima_freebsd.Platform.Irq.{Irqe, Pdev, drop_tag, irq_teardown, entered, request_irq, free_irq}

abbrev pub one : Bool → ℕ
one true = 1
one false = 0

-- The handlers of the `n` interrupts from number `i` on that are set up.
unfoldable pub live : ℕ → ℕ → (ℕ → Bool) → ℕ
live zero i t = 0
live (suc n) i t = one (t i) + live n (i + 1) t

live_below : (n i j : ℕ) (t : ℕ → Bool) (b : Bool) → j < i → live n i (update t j b) ≡ live n i t
unfolding live
live_below zero i j t b h = refl
live_below (suc n) i j t b h = ground (arith, live_below n (i + 1) j t b)

live_update :
    (n i j : ℕ) (t : ℕ → Bool) (b : Bool)
    → i ≤ j
    → j < i + n
    → live n i (update t j b) + one (t j) ≡ live n i t + one b
unfolding live
live_update zero i j t b lo hi = absurd (omega arith)
live_update (suc n) i j t b lo hi = elim (Bool-cases (j == i)) [
  | inl e ↦ ground (arith, live_below n (i + 1) j t b)
  | inr e ↦ ground (arith, live_update n (i + 1) j t b)
]

-- An entry stands at its own index.
abbrev pub Named : ℕ → Option Irqe → Type 0
Named i none = Unit
Named i (some e) = e.idx ≡ i

abbrev pub AllBelow : ℕ → List Irqe → Type 0
AllBelow n [] = Unit
AllBelow n (e ∷ es) = (e.idx < n) × AllBelow n es

pub record Inv (s : Pdev) : Type 0 where
  pub balanced : s.setups ≡ s.teardowns + live s.nirq 0 s.tag
  pub named : (i : ℕ) → Named i (s.ent i)
  pub below : AllBelow s.nirq s.devres

-- What a request or a release of an interrupt leaves alone.
pub record Kept (s s' : Pdev) : Type 0 where
  pub nirq : s'.nirq ≡ s.nirq
  pub nmem : s'.nmem ≡ s.nmem
  pub allocs : s'.allocs ≡ s.allocs
  pub releases : s'.releases ≡ s.releases
  pub magic : s'.magic ≡ s.magic

pub drop_tag_balanced :
    (idx : ℕ) (s : Pdev)
    → idx < s.nirq
    → s.setups ≡ s.teardowns + live s.nirq 0 s.tag
    → let s' = drop_tag idx s in s'.setups ≡ s'.teardowns + live s.nirq 0 s'.tag
unfolding drop_tag
drop_tag_balanced idx s h b = ground (arith, live_update s.nirq 0 idx s.tag false)

pub Kept-trans : {s t u : Pdev} → Kept s t → Kept t u → Kept s u
Kept-trans h k = record {
  nirq = k.nirq ∙ h.nirq;
  nmem = k.nmem ∙ h.nmem;
  allocs = k.allocs ∙ h.allocs;
  releases = k.releases ∙ h.releases;
  magic = k.magic ∙ h.magic;
}

-- All that a teardown of a handler leaves alone.
pub record Calm (s s' : Pdev) : Type 0 where
  pub kept : Kept s s'
  pub devres : s'.devres ≡ s.devres
  pub plain : s'.plain ≡ s.plain
  pub published : s'.published ≡ s.published
  pub dma : s'.dma ≡ s.dma

pub Calm-trans : {s t u : Pdev} → Calm s t → Calm t u → Calm s u
Calm-trans h k = record {
  kept = Kept-trans h.kept k.kept;
  devres = k.devres ∙ h.devres;
  plain = k.plain ∙ h.plain;
  published = k.published ∙ h.published;
  dma = k.dma ∙ h.dma;
}

pub Kept-refl : (s : Pdev) → Kept s s
Kept-refl s = record { nirq = refl; nmem = refl; allocs = refl; releases = refl; magic = refl }

pub Calm-refl : (s : Pdev) → Calm s s
Calm-refl s = record {
  kept = Kept-refl s;
  devres = refl;
  plain = refl;
  published = refl;
  dma = refl;
}

pub drop_tag-Calm : (idx : ℕ) (s : Pdev) → Calm s (drop_tag idx s)
unfolding drop_tag
drop_tag-Calm idx s = elim (Bool-cases (s.tag idx)) [
  | inl e ↦
      rw (e, drop_tag)
        (record {
          kept = record { nirq = refl; nmem = refl; allocs = refl; releases = refl; magic = refl };
          devres = refl;
          plain = refl;
          published = refl;
          dma = refl;
        })
  | inr e ↦ rw (e, drop_tag) (Calm-refl s)
]

pub irq_teardown-Calm : (idx : ℕ) (s : Pdev) → Calm s (irq_teardown idx s)
unfolding irq_teardown
irq_teardown-Calm idx s =
    let c = drop_tag-Calm idx s in
    record {
      kept = record {
        nirq = c.kept.nirq;
        nmem = c.kept.nmem;
        allocs = c.kept.allocs;
        releases = c.kept.releases;
        magic = c.kept.magic;
      };
      devres = c.devres;
      plain = c.plain;
      published = c.published;
      dma = c.dma;
    }

pub drop_tag_ent : (idx : ℕ) (s : Pdev) → (drop_tag idx s).ent ≡ s.ent
unfolding drop_tag
drop_tag_ent idx s = ground arith

pub irq_teardown-Inv : (idx : ℕ) (s : Pdev) → idx < s.nirq → Inv s → Inv (irq_teardown idx s)
unfolding irq_teardown
irq_teardown-Inv idx s h v =
    let c = drop_tag-Calm idx s in
    record {
      balanced = rw c.kept.nirq (drop_tag_balanced idx s h v.balanced);
      named = λ i. elim (Bool-cases (i == idx)) [
        | inl e ↦ rw e tt
        | inr e ↦ rw e (subst (λ f. Named i (f i)) (sym (drop_tag_ent idx s)) (v.named i))
      ];
      below = rw (c.kept.nirq, c.devres) v.below;
    }

entered-Inv :
    (e : Irqe) (s : Pdev) → e.idx < s.nirq → s.tag e.idx ≡ false → Inv s → Inv (entered e s)
entered-Inv e s h off v = record {
  balanced = ground (arith, live_update s.nirq 0 e.idx s.tag true, v.balanced);
  named = λ i. elim (Bool-cases (i == e.idx)) [
    | inl f ↦ rw f (ground arith)
    | inr f ↦ rw f (v.named i)
  ];
  below = elim (Bool-cases e.devres) [ inl f ↦ rw f (h, v.below) | inr f ↦ rw f v.below ];
}

abbrev pub Good : Pdev → Pdev → Type 0
Good s s' = Inv s' × Kept s s'

pub request_irq-Good :
    (handler xdev alloc : Bool) (setup : Status) (irq : ℕ) (s : Pdev)
    → Inv s
    → Good s (request_irq handler xdev alloc setup irq s).1
unfolding request_irq
request_irq-Good handler xdev alloc setup irq s v =
    let same : Good s s = (v, Kept-refl s) in
    elim (Bool-cases handler) [
      | inr a ↦ rw (a, request_irq) same
      | inl a ↦ elim (Bool-cases (irq_is_token irq)) [
        | inr b ↦ rw (a, b, request_irq) same
        | inl b ↦ elim (Bool-cases (leb s.nirq (irq_index irq))) [
          | inl c ↦ rw (a, b, c, request_irq) same
          | inr c ↦ elim (Bool-cases (s.tag (irq_index irq))) [
            | inl d ↦ rw (a, b, c, d, request_irq) same
            | inr d ↦ elim (Bool-cases alloc) [
              | inr e ↦ rw (a, b, c, d, e, request_irq) same
              | inl e ↦ elim (Result-cases setup) [
                | inr (x, f) ↦ rw (a, b, c, d, e, f, request_irq) same
                | inl (u, f) ↦
                    rw (a, b, c, d, e, f, request_irq)
                      (
                        entered-Inv (record { idx = irq_index irq; devres = xdev }) s
                            (leb_false→lt s.nirq (irq_index irq) c) d v,
                        record {
                          nirq = refl;
                          nmem = refl;
                          allocs = refl;
                          releases = refl;
                          magic = refl;
                        },
                      )
              ]
            ]
          ]
        ]
      ]
    ]

pub free_irq-Good : (irq : ℕ) (s : Pdev) → Inv s → Good s (free_irq irq s)
unfolding free_irq
free_irq-Good irq s v = elim (Bool-cases (irq_is_token irq)) [
  | inr a ↦ rw (a, free_irq) (v, Kept-refl s)
  | inl a ↦ elim (Bool-cases (leb s.nirq (irq_index irq))) [
    | inl b ↦ rw (a, b, free_irq) (v, Kept-refl s)
    | inr b ↦ elim (Option-cases (s.ent (irq_index irq))) [
      | inl c ↦ rw (a, b, c, free_irq) (v, Kept-refl s)
      | inr (e, c) ↦
          let at : e.idx ≡ irq_index irq =
            subst (Named (irq_index irq)) c (v.named (irq_index irq)) in
          let low : e.idx < s.nirq = omega (arith, at, leb_false→lt s.nirq (irq_index irq) b) in
          let w = irq_teardown-Inv e.idx s low v in
          let k = (irq_teardown-Calm e.idx s).kept in
          elim (Bool-cases e.devres) [
            | inl d ↦ rw (a, b, c, d, free_irq) (w, k)
            | inr d ↦
                rw (a, b, c, d, free_irq)
                  (
                    record { balanced = w.balanced; named = w.named; below = w.below },
                    record {
                      nirq = k.nirq;
                      nmem = k.nmem;
                      allocs = k.allocs;
                      releases = k.releases;
                      magic = k.magic;
                    },
                  )
          ]
    ]
  ]
]
