-- ===== src/Cs/Compute/Args.antt =====
-- The arguments of compute requests, and the requests that they make up, in
-- host/snia_cs_api/cs_api_nvme_tsp.c.
use nvme_csd.Base.{
  ℕ, ◌+◌, ◌-◌, ◌*◌, ◌≤◌, ◌<◌, ◌≡◌, refl, sym, suc, memcpy, ap, ◌∙◌, arith, pos, to_u32,
  to_u32_bound, to_int, to_int_small, List, [], ◌∷◌, ◌++◌, some, length, take, drop, drop-drop,
  take-append, field, memcpy-fits, blit, length-blit, le_bytes, le_value-le_bytes_four,
}
use nvme_csd.Cs.Sys.{Machine, Env, AdminCommand, admin_passthru, after}
use nvme_csd.Cs.Types.{
  arg_type_code, cs_afdm_type, cs_64bit_value_type, cs_32bit_value_type, cs_stream_type,
}
use nvme_csd.Cs.Types.Request.{
  ComputeArg, dev_mem, value64, value32, stream_handle, ComputeRequest, type_of, request_bytes,
  length-request_bytes, request_bytes-append,
}
use nvme_csd.Cs.Tsp.{tsp_cs_compute}
use nvme_csd.Cs.Compute.{VaList, set_value, cs_helper_set_compute_arg, cs_queue_compute_request}
use nvme_csd.Cs.Compute.Laws.{cs_queue_compute_request_lem}

-- What a caller passes for an argument.
abbrev pub values_of : ComputeArg → VaList
values_of (dev_mem d) = d.mem_handle ∷ d.byte_offset ∷ []
values_of (value64 v) = v ∷ []
values_of (value32 v) = v ∷ []
values_of (stream_handle v) = v ∷ []

-- The bytes of the union that are written; for a stream there are none.
abbrev pub member_of : ComputeArg → List ℕ
member_of (dev_mem d) = le_bytes 8 d.mem_handle ++ le_bytes 8 d.byte_offset
member_of (value64 v) = le_bytes 8 v
member_of (value32 v) = le_bytes 4 v
member_of (stream_handle v) = []

-- The type is written, and then a member of `k` bytes behind it.
set_member :
    (code k : ℕ) (value arg : List ℕ)
    → 20 ≤ length arg
    → k ≤ 16
    → take k value ≡ value
    → length value ≡ k
    → memcpy (blit arg 0 (le_bytes 4 code)) 4 value k
      ≡ some (le_bytes 4 code ++ (value ++ drop (4 + k) arg))
set_member code k value arg room short whole size =
    let typed = blit arg 0 (le_bytes 4 code) in
    let kept : length typed ≡ length arg = length-blit arg 0 (le_bytes 4 code) (omega arith) in
    let back : 4 + k ≡ suc (suc (suc (suc k))) = omega arith in
    memcpy-fits typed 4 value k (omega arith) (omega arith)
    ∙ ap (λ (v : List ℕ). some (blit typed 4 v)) whole
    ∙ ap (λ (n : ℕ). some (le_bytes 4 code ++ (value ++ drop (4 + n) typed))) size
    ∙ ap (λ (n : ℕ). some (le_bytes 4 code ++ (value ++ drop n typed))) back
    ∙ ap (λ (l : List ℕ). some (le_bytes 4 code ++ (value ++ l)))
        (drop-drop k 4 (4 + k) arg (omega arith))

set_type :
    (code : ℕ) (arg : List ℕ)
    → 20 ≤ length arg
    → memcpy arg 0 (le_bytes 4 code) 4 ≡ some (blit arg 0 (le_bytes 4 code))
set_type code arg room = memcpy-fits arg 0 (le_bytes 4 code) 4 (omega arith) (omega arith)

-- For every argument and at least 20 bytes of memory: the type is set, then the bytes of the member
-- that goes with it (none for a stream, whose type is not supported), and what lies behind them stays.
pub cs_helper_set_compute_arg_lem :
    (a : ComputeArg) (arg : List ℕ)
    → 20 ≤ length arg
    → cs_helper_set_compute_arg (some arg) (type_of a) (values_of a)
      ≡ some (
          some (
            le_bytes 4 (arg_type_code (type_of a))
            ++ (member_of a ++ drop (4 + length (member_of a)) arg)))
unfolding cs_helper_set_compute_arg set_value
cs_helper_set_compute_arg_lem (dev_mem d) arg room = rw (
  set_type (arg_type_code cs_afdm_type) arg room,
  set_member (arg_type_code cs_afdm_type) 16 (member_of (dev_mem d)) arg room (omega arith) refl
      refl,
  cs_helper_set_compute_arg,
  set_value,
)
cs_helper_set_compute_arg_lem (value64 v) arg room = rw (
  set_type (arg_type_code cs_64bit_value_type) arg room,
  set_member (arg_type_code cs_64bit_value_type) 8 (le_bytes 8 v) arg room (omega arith) refl refl,
  cs_helper_set_compute_arg,
  set_value,
)
cs_helper_set_compute_arg_lem (value32 v) arg room = rw (
  set_type (arg_type_code cs_32bit_value_type) arg room,
  set_member (arg_type_code cs_32bit_value_type) 4 (le_bytes 4 v) arg room (omega arith) refl refl,
  cs_helper_set_compute_arg,
  set_value,
)
cs_helper_set_compute_arg_lem (stream_handle v) arg room =
    rw (set_type (arg_type_code cs_stream_type) arg room, cs_helper_set_compute_arg, set_value)

module _ {S : Type 0} (step : Env S) where
  -- A request of 1 to 204 arguments, whatever lies behind it in memory, is submitted by one admin
  -- command to the descriptor that its handle is; the command carries the request just as it lies in
  -- memory and tells its size, and what the device returns is returned.
  pub cs_queue_compute_request-request_bytes :
      (r : ComputeRequest) (rest : List ℕ) (m : Machine S)
      → 0 < length r.args
      → length r.args ≤ 204
      → let c : AdminCommand = record {
        fd = to_int (to_u32 r.cse_handle);
        cdw10 = tsp_cs_compute;
        cdw11 = 0;
        cdw12 = length (request_bytes r []);
        cdw13 = 0;
        data_len = 4096;
        payload = request_bytes r [];
        timeout_ms = 3600000;
      } in
        cs_queue_compute_request step (some (request_bytes r rest)) m
        ≡ some ((step (admin_passthru c) m.env).0.ret, after step (admin_passthru c) m)
  cs_queue_compute_request-request_bytes r rest m some_args few =
      let n = length r.args in
      let req = request_bytes r rest in
      let count : to_int (field 8 4 req) ≡ pos n =
        ap to_int (le_value-le_bytes_four n (omega arith)) ∙ to_int_small n (omega arith) in
      let all = length-request_bytes r rest in
      let own = length-request_bytes r [] in
      let size : 32 + 20 * (n - 1) ≡ length (request_bytes r []) = omega (arith, own) in
      let payload : take (32 + 20 * (n - 1)) req ≡ request_bytes r [] =
        ap (take (32 + 20 * (n - 1))) (request_bytes-append r rest)
        ∙ take-append (32 + 20 * (n - 1)) (request_bytes r []) rest (sym size) in
      let device : to_int (field 0 4 req) ≡ to_int (to_u32 r.cse_handle) =
        ap to_int (le_value-le_bytes_four (to_u32 r.cse_handle) (to_u32_bound r.cse_handle)) in
      rw (sym device, sym payload, sym size)
        (cs_queue_compute_request_lem step req n m count few (omega arith))
