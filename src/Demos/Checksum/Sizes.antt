-- ===== src/Demos/Checksum/Sizes.antt =====
-- The size of the region that host/demos/checksum/checksum.c asks for, against the size of the file
-- that it reads into it.
use nvme_csd.Base.{
  ℤ, ℕ, ◌+◌, ◌*◌, ◌/◌, ◌%◌, ◌^◌, ◌≤◌, ◌<◌, ◌≡◌, ◌-◌, ap, ◌∙◌, sym, refl, to_int_small, arith, pos,
  to_int,
}
use nvme_csd.Cs.Sys.{Env, Machine}
use nvme_csd.Demos.Checksum.{align_4k, alloc_bytes, alloc_region}

-- For a file of at most 2 ^ 31 - 4096 bytes the size asked for is a multiple of 4096 that holds the
-- file, with less than 4096 bytes more.
pub align_4k_bounds :
    (size : ℕ)
    → size ≤ 2 ^ 31 - 4096
    → (n : ℕ) × (to_int (align_4k size) ≡ pos n) × (n % 4096 ≡ 0) × (size ≤ n) × (n < size + 4096)
unfolding align_4k
align_4k_bounds size h =
    let same : (size + 4095) % 2 ^ 64 / 4096 * 4096 ≡ (size + 4095) / 4096 * 4096 = omega arith in
    (
      (size + 4095) / 4096 * 4096,
      ap to_int same ∙ to_int_small ((size + 4095) / 4096 * 4096) (omega arith),
      omega arith,
      omega arith,
      omega arith,
    )

align_4k_low :
    (k rest : ℕ)
    → k < 2 ^ 31
    → 0 < rest
    → rest ≤ 4096
    → to_int (align_4k (2 ^ 32 * k + rest)) ≡ pos 4096
unfolding align_4k to_int
align_4k_low k rest small some_rest h =
    let whole : (2 ^ 32 * k + rest + 4095) % 2 ^ 64 / 4096 * 4096 ≡ 2 ^ 32 * k + 4096 =
      omega arith in
    let low : (2 ^ 32 * k + 4096) % 2 ^ 32 ≡ 4096 = omega arith in ap to_int whole ∙ rw low refl

-- For a file of `k` times 2 ^ 32 bytes, `k` not zero and below 2 ^ 31, and 1 to 4096 bytes more: the
-- region that is allocated for the file is the one that is allocated for 4096 bytes, which is less
-- than the file.
pub alloc_region-align_4k :
    {S : Type 0} (step : Env S) (dev : ℤ) (k rest : ℕ) (m : Machine S)
    → 0 < k
    → k < 2 ^ 31
    → 0 < rest
    → rest ≤ 4096
    → (alloc_region step dev (align_4k (2 ^ 32 * k + rest)) m ≡ alloc_region step dev 4096 m)
      × (4096 < 2 ^ 32 * k + rest)
unfolding alloc_region
alloc_region-align_4k step dev k rest m some_k small some_rest h = (
  ap (λ b. alloc_bytes step dev b m)
      (align_4k_low k rest small some_rest h ∙ sym (to_int_small 4096 (omega arith))),
  omega arith,
)
