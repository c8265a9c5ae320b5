-- ===== src/Hw/L2/Laws.antt =====
-- lima_l2_cache.c: what the flush and the initialisation of a cache write and answer.
use lima_freebsd.Base.{
  ℕ, ◌+◌, ◌≡◌, refl, arith, ◌∷◌, Bool, false, not, ◌==◌, ◌&&◌, enodev, err, ok, Result-cases,
  Bool-cases, inl, inr, Status, success, ◌||◌, ◌∙◌, true,
}
use lima_freebsd.Hw.{Hw, write, writel, readl, has_bit, poll_reg}
use lima_freebsd.Hw.Log.{poll_reg-writes}
use lima_freebsd.Hw.L2.{
  L2, flush, init, any_present, command, clear_all, max_reads, enable, enable_all, l2_status,
  l2_cache2, pp4,
}

abbrev pub gave_up : Status → ℕ
gave_up (ok u) = 0
gave_up (err e) = 1

-- A flush gives the command once, and counts itself where it gave up.
pub record Flushed (ip : ℕ) (s : L2) (r : Status) (s' : L2) : Type 0 where
  pub writes : s'.hw.writes ≡ write ip command clear_all ∷ s.hw.writes
  pub counted : s'.timeouts ≡ s.timeouts + gave_up r

pub flush-Flushed : (n ip : ℕ) (s : L2) → let (r, s') = flush n ip s in Flushed ip s r s'
unfolding flush writel
flush-Flushed n ip s =
    let h0 : Hw = writel ip command clear_all s.hw in
    let w = poll_reg-writes n ip l2_status (λ v. not (has_bit v 1)) h0 in
    elim (Result-cases (poll_reg n ip l2_status (λ v. not (has_bit v 1)) h0).0) [
      | inl (u, e) ↦ rw (e, flush) (record { writes = w; counted = omega arith })
      | inr (x, e) ↦ rw (e, flush) (record { writes = w; counted = refl })
    ]

-- What lima_l2_cache_init writes: the flush, then what enables the cache, then the reads.
abbrev pub Enabled : ℕ → L2 → L2 → Type 0
Enabled ip s s' =
    s'.hw.writes
    ≡ write ip max_reads 0x1c
      ∷ write ip enable enable_all
      ∷ write ip command clear_all
      ∷ s.hw.writes

-- What an initialisation comes to, by whether it is for the third cache with no processor behind it.
abbrev pub InitPost : ℕ → ℕ → Bool → L2 → Status → L2 → Type 0
InitPost n ip true s r s' = (r ≡ err enodev) × (s' ≡ s)
InitPost n ip false s r s' =
    (r ≡ success)
    × Enabled ip s s'
    × (s'.timeouts ≡ s.timeouts + gave_up (flush n ip (record s { hw = (readl ip 4 s.hw).1 })).0)

-- The initialisation of a cache fails for the block l2_cache2, which is number 21, where none of PP4 to
-- PP7, which are the numbers 15 to 18, is present, and then changes nothing. For every other block, and
-- for l2_cache2 with one of the four present, it answers success and enables the cache, also where its
-- flush gave up, which only the count of the timeouts tells.
pub init-Enabled :
    (n : ℕ) (present : ℕ → Bool) (ip : ℕ) (s : L2)
    → let (r, s') = init n present ip s in
      InitPost n ip
        ((ip == 21) && not (present 15 || present 16 || present 17 || present 18))
        s
        r
        s'
unfolding init writel readl any_present
init-Enabled n present ip s =
    let f = flush-Flushed n ip (record s { hw = (readl ip 4 s.hw).1 }) in
    let same : ((ip == l2_cache2) && not (any_present 4 pp4 present))
        ≡ ((ip == 21) && not (present 15 || present 16 || present 17 || present 18)) =
      ground arith in
    elim (Bool-cases ((ip == 21) && not (present 15 || present 16 || present 17 || present 18))) [
      | inl c ↦ rw c (rw (same ∙ c, init) (refl, refl))
      | inr c ↦ rw c (rw (same ∙ c, init) (refl, rw f.writes refl, f.counted))
    ]
