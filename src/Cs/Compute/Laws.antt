-- ===== src/Cs/Compute/Laws.antt =====
-- What host/snia_cs_api/cs_api_nvme_tsp.c sends for a compute request.
use nvme_csd.Base.{
  ◌%◌, ℕ, ◌+◌, ◌-◌, ◌*◌, ◌^◌, ◌≤◌, ◌<◌, ◌≡◌, refl, ◌∙◌, pos, to_int, List, [], ◌∷◌, none, some,
  length, field, arith, memcpy-fits, blit, length-blit, le_bytes, le_value-le_bytes_eight, ◌++◌,
}
use nvme_csd.Cs.Sys.{Machine, Env, admin_passthru}
use nvme_csd.Cs.Types.{cs_afdm_type, num_args_offset, arg_type_code}
use nvme_csd.Cs.Tsp.Size.{
  compute_command, compute_operation_lem, compute_operation_overflow, request_size_large,
}
use nvme_csd.Cs.Compute.{
  set_value, cs_helper_set_compute_arg, do_compute_request, cs_queue_compute_request,
}

-- An argument in device memory, with a handle and an offset below 2 ^ 64, set in a structure of 20
-- bytes: the type, the handle and the offset read back from the structure, which keeps its size.
pub set_afdm_fields :
    (arg : List ℕ) (handle offset : ℕ)
    → length arg ≡ 20
    → handle < 2 ^ 64
    → offset < 2 ^ 64
    → (arg' : List ℕ) × (cs_helper_set_compute_arg (some arg) cs_afdm_type (handle ∷ offset ∷ [])
        ≡ some (some arg'))
      × (length arg' ≡ 20)
      × (field 0 4 arg' ≡ arg_type_code cs_afdm_type)
      × (field 4 8 arg' ≡ handle)
      × (field 12 8 arg' ≡ offset)
unfolding cs_helper_set_compute_arg set_value arg_type_code
set_afdm_fields arg handle offset h hh ho =
    let typed = blit arg 0 (le_bytes 4 1) in
    let size : length typed ≡ 20 = length-blit arg 0 (le_bytes 4 1) (omega arith) ∙ h in
    let value = le_bytes 8 handle ++ le_bytes 8 offset in
    (
      blit typed 4 value,
      rw (
        memcpy-fits arg 0 (le_bytes 4 1) 4 (omega arith) (omega arith),
        memcpy-fits typed 4 value 16 (omega arith) (omega arith),
        cs_helper_set_compute_arg,
        set_value,
      ),
      length-blit typed 4 value (omega arith) ∙ size,
      refl,
      le_value-le_bytes_eight handle hh,
      le_value-le_bytes_eight offset ho,
    )

module _ {S : Type 0} (step : Env S) where
  -- A request whose memory holds its `n` arguments, at most 204, is submitted by one admin command
  -- that carries exactly the request and its size; what the device returns is returned.
  pub cs_queue_compute_request_lem :
      (req : List ℕ) (n : ℕ) (m : Machine S)
      → to_int (field num_args_offset 4 req) ≡ pos n
      → n ≤ 204
      → 32 + 20 * (n - 1) ≤ length req
      → let c = admin_passthru (compute_command (to_int (field 0 4 req)) req (32 + 20 * (n - 1))) in
        let (r, s) = step c m.env in
        cs_queue_compute_request step (some req) m
        ≡ some (r.ret, record { env = s; trace = record { call = c; reply = r } ∷ m.trace })
  unfolding cs_queue_compute_request do_compute_request
  cs_queue_compute_request_lem = compute_operation_lem step

  -- A request with a count of arguments above 204, or a negative one, which is above 204 as a number
  -- of 32 bits without sign, is undefined behaviour, whatever its memory holds and the device does.
  pub cs_queue_compute_request_overflow :
      (req : List ℕ) (m : Machine S)
      → 204 < field num_args_offset 4 req % 2 ^ 32
      → cs_queue_compute_request step (some req) m ≡ none
  unfolding cs_queue_compute_request do_compute_request
  cs_queue_compute_request_overflow req m many =
      compute_operation_overflow step req m (request_size_large (field num_args_offset 4 req) many)
