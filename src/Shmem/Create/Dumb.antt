-- ===== src/Shmem/Create/Dumb.antt =====
-- The sizes of a dumb buffer.
use lima_freebsd.Base.{
  ℕ, ◌+◌, ◌*◌, ◌/◌, ◌%◌, ◌<◌, ◌≤◌, ◌≡◌, arith, Bool-cases, inl, inr, ◌==◌, ◌||◌, ltb, if◌then◌else◌,
  ltb-false→le,
}
use lima_freebsd.Base.Int.{u32_mod}
use lima_freebsd.Shmem.Logic.{align_size}
use lima_freebsd.Shmem.Create.{dumb_sizes}

-- The rows fit the pitch, and the buffer holds them all.
abbrev pub Fits : ℕ → ℕ → ℕ → ℕ × ℕ → Type 0
Fits width height bpp (pitch, size) = (width * bpp ≤ 8 * pitch) × (pitch * height ≤ size)

align_size-le : (n : ℕ) → n < u32_mod → n ≤ align_size (n % u32_mod)
unfolding align_size
align_size-le n h = omega (arith, h)

enlarged : (n size : ℕ) → n < u32_mod → n ≤ (if ltb size n then align_size (n % u32_mod) else size)
enlarged n size h = ground (arith, align_size-le n h)

-- In a dumb buffer of a width and a height, `width * bpp + 7` below 2^32, the rows fit the pitch that
-- comes out, and the buffer that comes out holds as many rows of that pitch as the height says. The
-- pitch and the size that were asked for may be 0 or too small; both products of a pitch with the
-- height, for the least pitch and for the one asked for, must be below 2^32, as the code multiplies in
-- 32 bits.
pub dumb_sizes-Fits :
    (width height bpp pitch size : ℕ)
    → width * bpp + 7 < u32_mod
    → (width * bpp + 7) / 8 * height < u32_mod
    → pitch * height < u32_mod
    → Fits width height bpp (dumb_sizes width height bpp pitch size)
unfolding dumb_sizes
dumb_sizes-Fits width height bpp pitch size row all asked =
    let min_pitch = (width * bpp + 7) / 8 in
    let same : (width * bpp % u32_mod + 7) % u32_mod / 8 ≡ min_pitch = omega (arith, row) in
    let enough : width * bpp ≤ 8 * min_pitch = omega arith in
    elim (Bool-cases ((pitch == 0) || (size == 0))) [
      | inl e ↦ rw (same, e, dumb_sizes) (enough, align_size-le (min_pitch * height) all)
      | inr e ↦
          rw (same, e, dumb_sizes)
            (elim (Bool-cases (ltb pitch min_pitch)) [
              | inl f ↦ rw f (enough, enlarged (min_pitch * height) size all)
              | inr f ↦ rw f (
                omega (arith, enough, ltb-false→le pitch min_pitch f),
                enlarged (pitch * height) size asked,
              )
            ])
    ]
