-- ===== src/Tests/Cs.antt =====
-- The API of host/snia_cs_api over a small device and system.
use nvme_csd.Cs.Compute.Args.{
  values_of, member_of, cs_helper_set_compute_arg_lem, cs_queue_compute_request-request_bytes,
}
use nvme_csd.Cs.Types.Request.{ComputeRequest, dev_mem, value32, value64, type_of, request_bytes}
use nvme_csd.Base.{
  ◌%◌, ◌^◌, le_bytes, to_u32, drop, ◌+◌, ℕ, zero, suc, ◌≡◌, refl, ap, arith, to_int, ◌<◌, pos, List,
  [], ◌∷◌, ◌++◌, none, some, true, length, replicate, field, if◌then◌else◌, ◌==◌,
}
use nvme_csd.Cs.Sys.{
  block_device, AdminCommand, Call, nvme_open, admin_passthru, open_dev_mem, Machine, Env, Fills,
  after,
}
use nvme_csd.Cs.Sys.Trace.{IsBalanced, Ensures}
use nvme_csd.Cs.Types.{cs_success, arg_type_code}
use nvme_csd.Cs.Tsp.{tsp_cs_compute, tsp_cs_id_string, strcmp_eq}
use nvme_csd.Cs.Tsp.Function.{function_command}
use nvme_csd.Cs.Tsp.Properties.{IsWithin}
use nvme_csd.Cs.Discovery.{
  cs_get_csx_from_path, cs_get_cse_from_csx, cs_open_cse, place_holder_cse_handle,
}
use nvme_csd.Cs.Discovery.Engine.{cs_open_cse-cs_get_cse_from_csx, cs_open_cse_iff}
use nvme_csd.Cs.Discovery.{place_holder_cse_name}
use nvme_csd.Base.{◌↔◌}
use nvme_csd.Cs.Discovery.Laws.{IsNamed, cs_get_csx_from_path_lem}
use nvme_csd.Cs.Query.{cs_query_device_properties, cs_get_function, checksum_name}
use nvme_csd.Cs.Query.Laws.{cs_query_device_properties-IsWithin, cs_get_function_overflow}
use nvme_csd.Cs.Compute.{cs_helper_set_compute_arg, cs_queue_compute_request}
use nvme_csd.Cs.Compute.Laws.{cs_queue_compute_request_overflow}

-- The bytes, cut off or filled with zeros to `n`.
abbrev pub fit : ℕ → List ℕ → List ℕ
fit zero bytes = []
fit (suc n) [] = 0 ∷ fit n []
fit (suc n) (b ∷ bytes) = b ∷ fit n bytes

pub length-fit : (n : ℕ) (bytes : List ℕ) → length (fit n bytes) ≡ n
length-fit zero bytes = refl
length-fit (suc n) [] = ap suc (length-fit n [])
length-fit (suc n) (b ∷ bytes) = ap suc (length-fit n bytes)

-- A device that has compute, two engines, and every function as number 7.
abbrev pub answer : AdminCommand → List ℕ
answer c =
    if c.cdw10 == 0
    then tsp_cs_id_string
    else if c.cdw11 == 8
    then replicate 56 1 ++ (2 ∷ 0 ∷ replicate 100 3)
    else 7 ∷ []

abbrev pub toy_step : Env (Unit {0})
toy_step (admin_passthru c) s =
    (record { ret = pos 0; buffer = fit c.data_len (answer c); kind = block_device }, s)
toy_step (nvme_open name) s = (record { ret = pos 3; buffer = []; kind = block_device }, s)
toy_step open_dev_mem s = (record { ret = pos 4; buffer = []; kind = block_device }, s)
toy_step call s = (record { ret = pos 0; buffer = []; kind = block_device }, s)

pub toy_step-Fills : Fills toy_step
toy_step-Fills c s = length-fit c.data_len (answer c)

abbrev pub start : Machine (Unit {0})
start = record { env = tt; trace = [] }

-- "nvme1", and a file of that name.
abbrev pub name : List ℕ
name = 110 ∷ 118 ∷ 109 ∷ 101 ∷ 49 ∷ []

abbrev pub basename : List ℕ → List ℕ
basename path = name

cs_get_csx_from_path_lem_example :
    Ensures
      (λ r m'. IsNamed name (replicate 8 1) r × IsBalanced start m')
      (cs_get_csx_from_path toy_step basename
        (some (47 ∷ name))
        (some 8)
        (some (replicate 8 1))
        start)
cs_get_csx_from_path_lem_example =
    cs_get_csx_from_path_lem toy_step basename (47 ∷ name) 8 (replicate 8 1) start (omega arith)

cs_query_device_properties-IsWithin_example :
    Ensures
      (λ r m'. IsWithin 200 (replicate 300 9) r)
      (cs_query_device_properties toy_step (pos 3) (some (pos 200)) (some (replicate 300 9)) start)
cs_query_device_properties-IsWithin_example =
    cs_query_device_properties-IsWithin toy_step toy_step-Fills (pos 3) 200 (replicate 300 9) start
      (omega arith) (omega arith)

checksum_matches : strcmp_eq (checksum_name ++ (0 ∷ [])) checksum_name ≡ some true
unfolding strcmp_eq
checksum_matches = refl

abbrev lookup : Call
lookup = admin_passthru (function_command (pos 3) 256 0)

cs_get_function_overflow_example :
    cs_get_function toy_step (pos 3) (some (checksum_name ++ (0 ∷ []))) (some (replicate 4 9)) start
    ≡ none
cs_get_function_overflow_example =
    cs_get_function_overflow toy_step (pos 3) (checksum_name ++ (0 ∷ [])) (replicate 4 9) start
      (omega arith) checksum_matches refl

-- Function 7 with device memory, a number and its result, and what lies behind it.
abbrev request : ComputeRequest
request = record {
  cse_handle = pos 3;
  function_id = 7;
  args = dev_mem (record { mem_handle = 4096; byte_offset = 16 }) ∷ value32 9 ∷ value64 300 ∷ [];
}

cs_queue_compute_request-request_bytes_example :
    let c : AdminCommand = record {
      fd = to_int (to_u32 (pos 3));
      cdw10 = tsp_cs_compute;
      cdw11 = 0;
      cdw12 = length (request_bytes request []);
      cdw13 = 0;
      data_len = 4096;
      payload = request_bytes request [];
      timeout_ms = 3600000;
    } in
    cs_queue_compute_request toy_step (some (request_bytes request (5 ∷ []))) start
    ≡ some ((toy_step (admin_passthru c) start.env).0.ret, after toy_step (admin_passthru c) start)
cs_queue_compute_request-request_bytes_example =
    cs_queue_compute_request-request_bytes toy_step request (5 ∷ []) start (omega arith)
      (omega arith)

-- 205 arguments.
abbrev large : List ℕ
large = 3 ∷ 0 ∷ 0 ∷ 0 ∷ 7 ∷ 0 ∷ 0 ∷ 0 ∷ 205 ∷ 0 ∷ 0 ∷ 0 ∷ []

large_request : 204 < field 8 4 large % 2 ^ 32
large_request = omega arith

cs_queue_compute_request_overflow_example :
    cs_queue_compute_request toy_step (some large) start ≡ none
cs_queue_compute_request_overflow_example =
    cs_queue_compute_request_overflow toy_step large start large_request

cs_helper_set_compute_arg_lem_example :
    cs_helper_set_compute_arg
      (some (replicate 21 9))
      (type_of (value32 77))
      (values_of (value32 77))
    ≡ some (
        some (
          le_bytes 4 (arg_type_code (type_of (value32 77)))
          ++ (member_of (value32 77)
              ++ drop (4 + length (member_of (value32 77))) (replicate 21 9))))
cs_helper_set_compute_arg_lem_example =
    cs_helper_set_compute_arg_lem (value32 77) (replicate 21 9) (omega arith)

abbrev scratch : List ℕ
scratch = replicate 20 1

cs_open_cse-cs_get_cse_from_csx_example :
    (name : List ℕ) × (cs_get_cse_from_csx (pos 3) (some 16) (some scratch)
      ≡ some (cs_success, name))
    × (length name ≡ length scratch)
    × (cs_open_cse name ≡ some (cs_success, some place_holder_cse_handle))
cs_open_cse-cs_get_cse_from_csx_example =
    cs_open_cse-cs_get_cse_from_csx 3 16 scratch (omega arith) (omega arith)

cs_open_cse_iff_example :
    (cs_open_cse (place_holder_cse_name ++ (0 ∷ 7 ∷ []))
      ≡ some (cs_success, some place_holder_cse_handle))
    ↔ ((rest : List ℕ) × (place_holder_cse_name ++ (0 ∷ 7 ∷ [])
          ≡ place_holder_cse_name ++ (0 ∷ rest)))
cs_open_cse_iff_example = cs_open_cse_iff (place_holder_cse_name ++ (0 ∷ 7 ∷ []))
