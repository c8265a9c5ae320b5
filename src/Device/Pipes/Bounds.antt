-- ===== src/Device/Pipes/Bounds.antt =====
-- The pixel pipe's arrays are large enough, and hold what the device has.
use lima_freebsd.Base.{
  min, not, is_some, ◌==◌, if◌then◌else◌, ℕ, zero, suc, ◌+◌, ◌*◌, ◌<◌, ◌≤◌, ◌≡◌, arith, refl, List,
  [], ◌∷◌, Bool, true, false, ◌&&◌, length, length-append,
}
use lima_freebsd.Device.Ips.{GpuId, mali400, IpDesc, IpAnswers, Ips, init_ip, init_ips, ip_desc}
use lima_freebsd.Device.Pipes.{
  Wiring, wire_pp, wire_pps, wire_pp_pipe, max_processor, max_mmu, max_l2_cache, ip_pp0, ip_ppmmu0,
  l2_cache_of, no_wiring,
}

-- After the rounds before `i`.
record Fits (i : ℕ) (w : Wiring) : Type 0 where
  processors : length w.processor ≤ i
  paired : length w.mmu ≡ length w.processor
  caches : length w.l2_cache * 4 ≤ i + 3

wire_pp-Fits :
    (g : GpuId) (present : ℕ → Bool) (i : ℕ) (w : Wiring)
    → Fits i w
    → Fits (i + 1) (wire_pp g present i w)
unfolding wire_pp
wire_pp-Fits g present i w f = ground (
  arith,
  length-append w.mmu ((ip_ppmmu0 + i) ∷ []),
  length-append w.processor ((ip_pp0 + i) ∷ []),
  length-append w.l2_cache (l2_cache_of g i ∷ []),
)

wire_pps-Fits :
    (n : ℕ) (g : GpuId) (present : ℕ → Bool) (i : ℕ) (w : Wiring)
    → Fits i w
    → Fits (i + n) (wire_pps n g present i w)
unfolding wire_pps
wire_pps-Fits zero g present i w f = ground arith
wire_pps-Fits (suc n) g present i w f =
    ground
      (arith, wire_pps-Fits n g present (i + 1) (wire_pp g present i w), wire_pp-Fits g present i w)

-- Whatever blocks are present, the loop stays within the arrays of `struct lima_sched_pipe`, and enters
-- as many MMUs as processors.
pub wire_pp_pipe_fits :
    (g : GpuId) (present : ℕ → Bool)
    → let w = wire_pp_pipe g present in
      (length w.processor ≤ max_processor)
      × (length w.mmu ≤ max_mmu)
      × (length w.l2_cache ≤ max_l2_cache)
      × (length w.mmu ≡ length w.processor)
unfolding wire_pp_pipe
wire_pp_pipe_fits g present =
    let f =
      wire_pps-Fits max_processor g present 0 no_wiring
        (record { processors = omega arith; paired = omega arith; caches = omega arith }) in
    omega (arith, f.processors, f.paired, f.caches)

-- Where the last four processors are absent, at most four are entered.
wire_pp-four :
    (g : GpuId) (present : ℕ → Bool) (i : ℕ) (w : Wiring)
    → (present (ip_pp0 + i) ≡ true → i < 4)
    → length w.processor ≤ min i 4
    → length (wire_pp g present i w).processor ≤ min (i + 1) 4
unfolding wire_pp
wire_pp-four g present i w absent f = ground (arith, length-append w.processor ((ip_pp0 + i) ∷ []))

wire_pps-four :
    (n : ℕ) (g : GpuId) (present : ℕ → Bool) (i : ℕ) (w : Wiring)
    → ((k : ℕ) → k < i + n → present (ip_pp0 + k) ≡ true → k < 4)
    → length w.processor ≤ min i 4
    → length (wire_pps n g present i w).processor ≤ 4
unfolding wire_pps
wire_pps-four zero g present i w absent f = omega arith
wire_pps-four (suc n) g present i w absent f =
    wire_pps-four n g present (i + 1) (wire_pp g present i w) (λ k lt h. absent k (omega arith) h)
      (wire_pp-four g present i w (absent i (omega arith)) f)

-- Whether the row of the block `j` has no offset, where the rows start at `i`; true behind the rows.
lacks : GpuId → List IpDesc → ℕ → ℕ → Bool
lacks g [] i j = true
lacks g (d ∷ ds) i j = lacks g ds (i + 1) j && (if j == i then not (is_some (d.offset g)) else true)

-- A block that a device lacks is never present.
init_ips-lacks :
    (g : GpuId) (ds : List IpDesc) (a : ℕ → IpAnswers) (i : ℕ) (s : Ips) (j : ℕ)
    → lacks g ds i j ≡ true
    → s.present j ≡ false
    → (init_ips g ds a i s).2.present j ≡ false
unfolding init_ips init_ip lacks
init_ips-lacks g [] a i s j h p = p
init_ips-lacks g (d ∷ ds) a i s j h p =
    ground (arith, init_ips-lacks g ds a (i + 1) (init_ip g d (a i) i s).1 j)

-- On a Mali-400, lima_device_init leaves the pixel pipe with at most four processors, however its blocks
-- answer: the frame of a Mali-400 job has room for four.
pub wire_pp_pipe-mali400 :
    (a : ℕ → IpAnswers) (s : Ips)
    → ((j : ℕ) → s.present j ≡ false)
    → length (wire_pp_pipe mali400 (init_ips mali400 ip_desc a 0 s).2.present).processor ≤ 4
unfolding wire_pp_pipe lacks ip_desc
wire_pp_pipe-mali400 a s none_yet =
    wire_pps-four max_processor mali400 (init_ips mali400 ip_desc a 0 s).2.present 0 no_wiring
      (λ k lt h. absent k lt h) (omega arith)
  where
    present : ℕ → Bool
    present = (init_ips mali400 ip_desc a 0 s).2.present

    gone : (j : ℕ) → lacks mali400 ip_desc 0 j ≡ true → present j ≡ false
    gone j h = init_ips-lacks mali400 ip_desc a 0 s j h (none_yet j)

    absent : (k : ℕ) → k < 8 → present (ip_pp0 + k) ≡ true → k < 4
    absent k lt h = ground (arith, gone 15 refl, gone 16 refl, gone 17 refl, gone 18 refl)
