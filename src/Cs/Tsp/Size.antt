-- ===== src/Cs/Tsp/Size.antt =====
-- Sizes that host/snia_cs_api/cs_api_nvme_tsp.c computes, against its buffers of 4096 bytes.
use nvme_csd.Base.{
  ◌∙◌, ap, le→leb, not_le→leb, List, ◌∷◌, none, some, length, take, field, memcpy_local, to_int, ℕ,
  ◌+◌, ◌-◌, ◌*◌, ◌%◌, ◌^◌, ◌≤◌, ◌<◌, ◌≡◌, ℤ, pos, negsuc, arith,
}
use nvme_csd.Cs.Types.{num_args_offset}
use nvme_csd.Cs.Sys.{Machine, Env, AdminCommand, admin_passthru}
use nvme_csd.Cs.Tsp.{request_size, buffer_len, tsp_cs_compute, compute_operation, passthru}

-- A request with `n` arguments, the first of which is a part of the structure.
pub request_size_pos : (n : ℕ) → n < 2 ^ 31 → request_size (pos n) ≡ 32 + 20 * (n - 1)
unfolding request_size
request_size_pos n h = ground arith

-- With a negative count the size wraps round.
pub request_size_negsuc : (n : ℕ) → n < 2 ^ 31 → request_size (negsuc n) ≡ 2 ^ 64 - (20 * n + 8)
unfolding request_size
request_size_negsuc n h = ground arith

-- The command by which a request of `size` bytes is submitted.
abbrev pub compute_command : ℤ → List ℕ → ℕ → AdminCommand
compute_command fd req size = record {
  fd = fd;
  cdw10 = tsp_cs_compute;
  cdw11 = 0;
  cdw12 = size;
  cdw13 = 0;
  data_len = buffer_len;
  payload = take size req;
  timeout_ms = 3600000;
}

memcpy_local-fits :
    (room : ℕ) (src : List ℕ) (n : ℕ)
    → n ≤ room
    → n ≤ length src
    → memcpy_local room src n ≡ some (take n src)
memcpy_local-fits room src n h k = rw (le→leb n room h, le→leb n (length src) k)

memcpy_local_overflow :
    (room : ℕ) (src : List ℕ) (n : ℕ) → room < n → memcpy_local room src n ≡ none
memcpy_local_overflow room src n h = rw (not_le→leb n room h)

-- A count above 204, or a negative one, makes more than the 4096 bytes of a buffer.
pub request_size_large : (w : ℕ) → 204 < w % 2 ^ 32 → 4096 < request_size (to_int w)
unfolding request_size to_int
request_size_large w h = ground arith

module _ {S : Type 0} (step : Env S) where
  pub compute_operation_lem :
      (req : List ℕ) (n : ℕ) (m : Machine S)
      → to_int (field num_args_offset 4 req) ≡ pos n
      → n ≤ 204
      → 32 + 20 * (n - 1) ≤ length req
      → let c = admin_passthru (compute_command (to_int (field 0 4 req)) req (32 + 20 * (n - 1))) in
        let (r, s) = step c m.env in
        compute_operation step req m
        ≡ some (r.ret, record { env = s; trace = record { call = c; reply = r } ∷ m.trace })
  unfolding compute_operation passthru
  compute_operation_lem req n m args small inside =
      let size : request_size (to_int (field num_args_offset 4 req)) ≡ 32 + 20 * (n - 1) =
        ap request_size args ∙ request_size_pos n (omega arith) in
      let low : (32 + 20 * (n - 1)) % 2 ^ 32 ≡ 32 + 20 * (n - 1) = omega arith in
      rw (
        size,
        memcpy_local-fits buffer_len req (32 + 20 * (n - 1)) (omega arith) inside,
        low,
        compute_operation,
      )

  pub compute_operation_overflow :
      (req : List ℕ) (m : Machine S)
      → 4096 < request_size (to_int (field num_args_offset 4 req))
      → compute_operation step req m ≡ none
  unfolding compute_operation
  compute_operation_overflow req m h = rw (
    memcpy_local_overflow buffer_len req (request_size (to_int (field num_args_offset 4 req))) h,
    compute_operation,
  )
