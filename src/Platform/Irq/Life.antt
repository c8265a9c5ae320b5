-- ===== src/Platform/Irq/Life.antt =====
-- The whole life of a platform device.
use lima_freebsd.Base.{
  ℕ, zero, suc, ◌+◌, ◌≤◌, ◌<◌, ◌≡◌, refl, sym, ap, ◌∙◌, subst, arith, List, [], ◌∷◌, Bool, true,
  false, Status, success, Result-cases, inl, inr,
}
use lima_freebsd.Platform.Irq.{
  Irqe, Pdev, drop_tag, irq_teardown, request_irq, free_irq, release_list, put_device,
  with_resources, attach, drop_tags, detach, take_down, resourced, run_probe,
}
use lima_freebsd.Platform.Irq.Laws.{
  one, live, Inv, Kept, Calm, AllBelow, Named, Kept-trans, Calm-trans, Kept-refl, Calm-refl,
  drop_tag-Calm, irq_teardown-Calm, drop_tag_ent, irq_teardown-Inv, Good, request_irq-Good,
  free_irq-Good, drop_tag_balanced,
}

-- What a driver does with its interrupts, between two states of the device.
pub data History : Pdev → Pdev → Type 0 where
  start : {s : Pdev} → History s s
  requested :
      {s t : Pdev} (handler xdev alloc : Bool) (setup : Status) (irq : ℕ)
      → History s t
      → History s (request_irq handler xdev alloc setup irq t).1
  freed : {s t : Pdev} (irq : ℕ) → History s t → History s (free_irq irq t)

History-Good : {s t : Pdev} → Inv s → History s t → Good s t
History-Good {s} v History.start = (v, Kept-refl s)
History-Good v (History.requested {s} {t} handler xdev alloc setup irq h) =
    let (w, k) = History-Good v h in
    let (x, l) = request_irq-Good handler xdev alloc setup irq t w in (x, Kept-trans k l)
History-Good v (History.freed {s} {t} irq h) =
    let (w, k) = History-Good v h in let (x, l) = free_irq-Good irq t w in (x, Kept-trans k l)

release_list-Good :
    (es : List Irqe) (s : Pdev)
    → AllBelow s.nirq es
    → Inv s
    → Inv (release_list es s) × Calm s (release_list es s)
unfolding release_list
release_list-Good [] s b v = (v, Calm-refl s)
release_list-Good (e ∷ es) s (low, b) v =
    let c = irq_teardown-Calm e.idx s in
    let (w, d) =
      release_list-Good es (irq_teardown e.idx s) (subst (λ n. AllBelow n es) (sym c.kept.nirq) b)
        (irq_teardown-Inv e.idx s low v) in
    (w, Calm-trans c d)

drop_tag-Inv : (idx : ℕ) (s : Pdev) → idx < s.nirq → Inv s → Inv (drop_tag idx s)
drop_tag-Inv idx s h v =
    let c = drop_tag-Calm idx s in
    record {
      balanced = rw c.kept.nirq (drop_tag_balanced idx s h v.balanced);
      named = λ i. subst (λ f. Named i (f i)) (sym (drop_tag_ent idx s)) (v.named i);
      below = rw (c.kept.nirq, c.devres) v.below;
    }

drop_tags-Good :
    (n i : ℕ) (s : Pdev) → i + n ≤ s.nirq → Inv s → Inv (drop_tags n i s) × Calm s (drop_tags n i s)
unfolding drop_tags
drop_tags-Good zero i s h v = (v, Calm-refl s)
drop_tags-Good (suc n) i s h v =
    let c = drop_tag-Calm i s in
    let (w, d) =
      drop_tags-Good n (i + 1) (drop_tag i s) (omega (arith, h, c.kept.nirq))
        (drop_tag-Inv i s (omega (arith, h)) v) in
    (w, Calm-trans c d)

drop_tag_tag : (idx j : ℕ) (s : Pdev) → one ((drop_tag idx s).tag j) ≤ one (s.tag j)
unfolding drop_tag
drop_tag_tag idx j s = ground arith

drop_tag_gone : (idx : ℕ) (s : Pdev) → one ((drop_tag idx s).tag idx) ≡ 0
unfolding drop_tag
drop_tag_gone idx s = ground arith

irq_teardown_tag : (idx j : ℕ) (s : Pdev) → one ((irq_teardown idx s).tag j) ≤ one (s.tag j)
unfolding irq_teardown
irq_teardown_tag idx j s = drop_tag_tag idx j s

drop_tags_tag : (n i j : ℕ) (s : Pdev) → one ((drop_tags n i s).tag j) ≤ one (s.tag j)
unfolding drop_tags
drop_tags_tag zero i j s = omega arith
drop_tags_tag (suc n) i j s =
    omega (arith, drop_tags_tag n (i + 1) j (drop_tag i s), drop_tag_tag i j s)

release_list_tag :
    (es : List Irqe) (j : ℕ) (s : Pdev) → one ((release_list es s).tag j) ≤ one (s.tag j)
unfolding release_list
release_list_tag [] j s = omega arith
release_list_tag (e ∷ es) j s =
    omega (arith, release_list_tag es j (irq_teardown e.idx s), irq_teardown_tag e.idx j s)

live-le : (n i : ℕ) (t u : ℕ → Bool) → ((j : ℕ) → one (u j) ≤ one (t j)) → live n i u ≤ live n i t
unfolding live
live-le zero i t u h = omega arith
live-le (suc n) i t u h = omega (arith, h i, live-le n (i + 1) t u h)

live-drop_tags : (n i : ℕ) (s : Pdev) → live n i (drop_tags n i s).tag ≡ 0
unfolding live drop_tags
live-drop_tags zero i s = refl
live-drop_tags (suc n) i s = omega (
  arith,
  drop_tags_tag n (i + 1) i (drop_tag i s),
  drop_tag_gone i s,
  live-drop_tags n (i + 1) (drop_tag i s),
)

-- A device that has gone: `p` entries of `kzalloc` are not freed.
pub record Ended (p : ℕ) (s : Pdev) : Type 0 where
  pub handlers : s.setups ≡ s.teardowns
  pub resources : s.allocs ≡ s.releases
  pub entries : s.plain ≡ p
  pub hidden : s.published ≡ false
  pub no_dma : s.dma ≡ false
  pub dead : s.magic ≡ false

-- Of a device whose resources are all there.
take_down-Ended :
    (s : Pdev) → s.allocs ≡ s.releases + (s.nirq + s.nmem) → Inv s → Ended s.plain (take_down s)
unfolding take_down put_device
take_down-Ended s r w =
    let s1 : Pdev = record s { published = false } in
    let v1 : Inv s1 = record { balanced = w.balanced; named = w.named; below = w.below } in
    let (v2, c2) = drop_tags-Good s1.nirq 0 s1 (omega arith) v1 in
    let s2 : Pdev = record (drop_tags s1.nirq 0 s1) { dma = false } in
    let v3 : Inv s2 = record { balanced = v2.balanced; named = v2.named; below = v2.below } in
    let (v4, c4) = release_list-Good s2.devres s2 v3.below v3 in
    let none_set = live-drop_tags s1.nirq 0 s1 in
    let gone =
      live-le s1.nirq 0 s2.tag (release_list s2.devres s2).tag
        (λ j. release_list_tag s2.devres j s2) in
    let same = ap (λ n. live n 0 (release_list s2.devres s2).tag) (c4.kept.nirq ∙ c2.kept.nirq) in
    record {
      handlers = omega (arith, v4.balanced, gone, none_set, same);
      resources = omega (
        arith, r, c2.kept.allocs, c4.kept.allocs, c2.kept.releases, c4.kept.releases, c2.kept.nirq,
        c4.kept.nirq, c2.kept.nmem, c4.kept.nmem,
      );
      entries = c4.plain ∙ c2.plain;
      hidden = c4.published ∙ c2.published;
      no_dma = c4.dma;
      dead = refl;
    }

detach_run :
    (remove : Pdev → Pdev) (s : Pdev) → s.magic ≡ true → detach remove s ≡ take_down (remove s)
unfolding detach
detach_run remove s m = ground (arith, m)

-- What a probe is given.
abbrev pub probed : (ℕ → Bool) → (ℕ → Bool) → Pdev
probed mem irq = record (with_resources mem irq) { dma = true; published = true }

live_none : (n i : ℕ) → live n i (λ j. false) ≡ 0
unfolding live
live_none zero i = refl
live_none (suc n) i = omega (arith, live_none n (i + 1))

resourced-Inv :
    (nmem nirq : ℕ) → Inv (record (resourced nmem nirq) { dma = true; published = true })
resourced-Inv nmem nirq = record {
  balanced = omega (arith, live_none nirq 0);
  named = λ i. tt;
  below = tt;
}

run_probe_ok :
    (probe : Pdev → Status × Pdev) (p s : Pdev) → run_probe probe p ≡ (success, s) → (probe p).1 ≡ s
unfolding run_probe
run_probe_ok probe p s h = elim (Result-cases (probe p).0) [
  | inl (u, e) ↦ ground (arith, e, h)
  | inr (x, e) ↦ ground (arith, e, h)
]

-- A device that was attached, whose driver requested and freed interrupts in any order in its probe and
-- in its remove, is left by the detach without a handler, without a resource, without DMA tags and
-- out of the list of devices: all that was set up is torn down, and all that was allocated released.
-- The entries of handlers that were requested without a device stay allocated.
pub detach-attach :
    (mem irq : ℕ → Bool) (probe : Pdev → Status × Pdev) (remove : Pdev → Pdev) (s : Pdev)
    → History (probed mem irq) (probe (probed mem irq)).1
    → attach mem irq success success probe ≡ (success, s)
    → History s (remove s)
    → Ended (remove s).plain (detach remove s)
unfolding attach with_resources
detach-attach mem irq probe remove s h a g =
    let (v, k) = History-Good (resourced-Inv _ _) h in
    let same = run_probe_ok probe (probed mem irq) s a in
    let w : Inv s = subst Inv same v in
    let l : Kept (probed mem irq) s = subst (Kept (probed mem irq)) same k in
    let (w', k') = History-Good w g in
    rw (detach_run remove s l.magic) (
      take_down-Ended (remove s)
        (omega
          (arith, l.allocs, l.releases, l.nirq, l.nmem, k'.allocs, k'.releases, k'.nirq, k'.nmem))
        w')
