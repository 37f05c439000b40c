-- ===== src/Demos/Request.antt =====
-- How the demos fill in a compute request.
pub mod Wire
use nvme_csd.Base.{
  ℕ, ◌+◌, ◌*◌, ℤ, to_u32, List, [], ◌∷◌, ◌++◌, Option, none, some, take, drop, replicate, ◌%◌, ◌^◌,
  memcpy, le_bytes,
}
use nvme_csd.Cs.Types.{
  ArgType, cs_afdm_type, cs_32bit_value_type, args_offset, sizeof_compute_arg,
  sizeof_compute_request,
}
use nvme_csd.Cs.Compute.{cs_helper_set_compute_arg}
use nvme_csd.Cs.Utils.{◌>>=◌}

-- The fields `CSEHandle`, `FunctionId` and `NumArgs`.
pub set_header : List ℕ → ℤ → ℕ → ℕ → Option (List ℕ)
set_header req cse function num_args = do
  req₁ ← memcpy req 0 (le_bytes 4 (to_u32 cse)) 4
  req₂ ← memcpy req₁ 4 (le_bytes 4 function) 4
  memcpy req₂ 8 (le_bytes 4 num_args) 4

-- `csHelperSetComputeArg(&argPtr[i], type, ...)`
pub set_arg : List ℕ → ℕ → ArgType → List ℕ → Option (List ℕ)
set_arg req i type values =
    let off = args_offset + sizeof_compute_arg * i in
    elim (cs_helper_set_compute_arg (some (drop off req)) type values) [
      | none ↦ none
      | some none ↦ some req
      | some (some arg) ↦ some (take off req ++ arg)
    ]

-- `calloc(1, sizeof(CsComputeRequest) + n * sizeof(CsComputeArg))`
abbrev pub zeroed_request : ℕ → List ℕ
zeroed_request n = replicate (sizeof_compute_request + sizeof_compute_arg * n) 0

-- `TSP_SLEEP_FUNCTION_ID`
abbrev pub tsp_sleep_function_id : ℕ
tsp_sleep_function_id = 100

-- The request of the sleep demo: how long to sleep.
pub sleep_request : ℤ → ℕ → Option (List ℕ)
sleep_request dev length = do
  req ← set_header (zeroed_request 1) dev tsp_sleep_function_id 1
  set_arg req 0 cs_32bit_value_type (length ∷ [])

-- The request of the checksum demo: the memory that holds the file, its size, and the memory for the
-- result. The size is cut to 32 bits.
pub checksum_request : ℤ → ℕ → ℕ → ℕ → ℕ → Option (List ℕ)
checksum_request dev function size text result = do
  req ← set_header (zeroed_request 3) dev function 3
  req₀ ← set_arg req 0 cs_afdm_type (text ∷ 0 ∷ [])
  req₁ ← set_arg req₀ 1 cs_32bit_value_type ((size % 2 ^ 32) ∷ [])
  set_arg req₁ 2 cs_afdm_type (result ∷ 0 ∷ [])
