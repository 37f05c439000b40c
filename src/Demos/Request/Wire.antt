-- ===== src/Demos/Request/Wire.antt =====
-- The requests that the demos fill in, as they lie in memory.
use nvme_csd.Base.{ℕ, ◌%◌, ◌^◌, ◌≡◌, refl, ℤ, [], ◌∷◌, some, replicate}
use nvme_csd.Cs.Types.{arg_type_code}
use nvme_csd.Cs.Types.Request.{ComputeArg, dev_mem, value32, ComputeRequest, request_bytes}
use nvme_csd.Cs.Compute.{set_value, cs_helper_set_compute_arg}
use nvme_csd.Demos.Request.{set_header, set_arg, sleep_request, checksum_request}

-- Device memory from its start.
abbrev pub afdm : ℕ → ComputeArg
afdm handle = dev_mem (record { mem_handle = handle; byte_offset = 0 })

-- What the demos ask for.
abbrev pub sleep_call : ℤ → ℕ → ComputeRequest
sleep_call dev msleep = record { cse_handle = dev; function_id = 100; args = value32 msleep ∷ [] }

abbrev pub checksum_call : ℤ → ℕ → ℕ → ℕ → ℕ → ComputeRequest
checksum_call dev function size text result = record {
  cse_handle = dev;
  function_id = function;
  args = afdm text ∷ value32 (size % 2 ^ 32) ∷ afdm result ∷ [];
}

-- The request of the sleep demo is function 100 with one argument, the time to sleep in 32 bits, and
-- room for one argument more.
pub sleep_request_lem :
    (dev : ℤ) (msleep : ℕ)
    → sleep_request dev msleep ≡ some (request_bytes (sleep_call dev msleep) (replicate 20 0))
unfolding sleep_request set_header set_arg cs_helper_set_compute_arg set_value arg_type_code
sleep_request_lem dev msleep = refl

-- The request of the checksum demo lies in memory as `CsComputeRequest` does that has three arguments,
-- the memory of the file, the low 32 bits of its size and the memory of the result, with room for one
-- argument more.
pub checksum_request_lem :
    (dev : ℤ) (function size text result : ℕ)
    → checksum_request dev function size text result
      ≡ some (request_bytes (checksum_call dev function size text result) (replicate 20 0))
unfolding checksum_request set_header set_arg cs_helper_set_compute_arg set_value arg_type_code
checksum_request_lem dev function size text result = refl
