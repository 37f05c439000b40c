-- ===== src/Cs/Tsp.antt =====
-- The admin commands of host/snia_cs_api/cs_api_nvme_tsp.c, the functions named `tsp_...`.
pub mod Size
pub mod Steps
pub mod Text
pub mod Properties
pub mod Function
pub mod Allocate
use nvme_csd.Base.{
  ℕ, ◌+◌, ◌-◌, ◌*◌, ◌/◌, ◌^◌, ◌%◌, ℤ, pos, is_zero, to_u64, to_u32, to_int, List, [], ◌∷◌, Option,
  none, some, Bool, true, false, not, ◌&&◌, take, memcpy, memcpy_local, le_value, field, ltb, leb,
  ◌==◌, if◌then◌else◌,
}
use nvme_csd.Cs.Sys.{M, pure, ◌>>=◌, lift, Env, sys, AdminCommand, admin_passthru, Reply}
use nvme_csd.Cs.Types.{
  CsStatus, cs_success, cs_device_not_available, cs_invalid_length, cs_invalid_arg,
  cs_not_enough_memory, sizeof_cse_properties, sizeof_csx_properties, num_cses, sizeof_capabilities,
  CsFunction, select_function, sizeof_compute_arg, sizeof_compute_request, num_args_offset,
}

-- `TSP_CDW10` and `TSP_CDW11`
abbrev pub tsp_cs_identify : ℕ
tsp_cs_identify = 0

abbrev pub tsp_cs_get : ℕ
tsp_cs_get = 8

abbrev pub tsp_cs_allocate : ℕ
tsp_cs_allocate = 16

abbrev pub tsp_cs_compute : ℕ
tsp_cs_compute = 32

abbrev pub tsp_cs_csx : ℕ
tsp_cs_csx = 0

abbrev pub tsp_cs_props : ℕ
tsp_cs_props = 8

abbrev pub tsp_cs_caps : ℕ
tsp_cs_caps = 16

abbrev pub tsp_cs_fun : ℕ
tsp_cs_fun = 32

abbrev pub tsp_cs_mem : ℕ
tsp_cs_mem = 64

-- The local `buffer` of each function.
abbrev pub buffer_len : ℕ
buffer_len = 4096

-- `TSP_CS_ID_STRING`, "This device has compute".
abbrev pub tsp_cs_id_string : List ℕ
tsp_cs_id_string =
    84 ∷ 104 ∷ 105 ∷ 115 ∷ 32 ∷ 100 ∷ 101 ∷ 118 ∷ 105 ∷ 99 ∷ 101 ∷ 32 ∷ 104 ∷ 97 ∷ 115 ∷ 32 ∷ 99
    ∷ 111 ∷ 109 ∷ 112 ∷ 117 ∷ 116 ∷ 101 ∷ []

-- `strcmp(bytes, text) == 0`, for a `text` with no NUL in it. It reads up to the first difference, or
-- to the NUL behind both, and where `bytes` ends before that it reads on, out of range.
unfoldable pub strcmp_eq : List ℕ → List ℕ → Option Bool
strcmp_eq [] text = none
strcmp_eq (b ∷ bytes) [] = some (b == 0)
strcmp_eq (b ∷ bytes) (c ∷ text) =
    let rest = strcmp_eq bytes text in if b == c then rest else some false

-- The same in a local buffer that has room for more than `text`, so that it ends inside; what the
-- device has left of the buffer as it was is taken to differ.
unfoldable pub strcmp_local : List ℕ → List ℕ → Bool
strcmp_local buffer text = elim (strcmp_eq buffer text) [ none ↦ false | some same ↦ same ]

-- `sizeof(CSxProperties)` and one `CSEProperties` for each further CSE, up to the buffer's size.
unfoldable pub required_size : ℕ → ℕ
required_size num =
    let all = sizeof_csx_properties + sizeof_cse_properties * (num - 1) in
    if ltb 1 num then (if ltb 4096 all then 4096 else all) else sizeof_csx_properties

-- `get_request_size`: the arguments behind the first one are counted as a `size_t`.
pub request_size : ℤ → ℕ
request_size num_args =
    if is_zero num_args
    then sizeof_compute_request
    else (sizeof_compute_request + (to_u64 num_args + 2 ^ 64 - 1) % 2 ^ 64 * sizeof_compute_arg)
      % 2 ^ 64

-- `memcpy` to the caller's memory, and the status that follows it.
unfoldable pub copy_out : {S : Type 0} → List ℕ → List ℕ → ℕ → CsStatus → M S (CsStatus × List ℕ)
copy_out dst src n status = do dst' ← lift (memcpy dst 0 src n); pure (status, dst')

module _ {S : Type 0} (step : Env S) where
  -- `nvme_admin_passthru` with opcode 0xc0.
  unfoldable pub passthru : ℤ → ℕ → ℕ → ℕ → ℕ → List ℕ → ℕ → M S Reply
  passthru fd cdw10 cdw11 cdw12 cdw13 payload timeout_ms = sys step (
      admin_passthru (record {
        fd = fd;
        cdw10 = cdw10;
        cdw11 = cdw11;
        cdw12 = cdw12;
        cdw13 = cdw13;
        data_len = buffer_len;
        payload = payload;
        timeout_ms = timeout_ms;
      }))

  unfoldable pub device_has_cs : ℤ → M S Bool
  device_has_cs fd = do
    r ← passthru fd tsp_cs_identify tsp_cs_csx 0 0 [] 0
    pure (if is_zero r.ret then strcmp_local r.buffer tsp_cs_id_string else false)

  -- What the caller's memory holds from `props` on is passed and returned.
  unfoldable pub get_properties : ℤ → ℤ → List ℕ → M S (CsStatus × List ℕ)
  get_properties fd length props = do
    r ← passthru fd tsp_cs_get tsp_cs_props 0 0 [] 0
    let size = to_u64 length
    let required = required_size (num_cses r.buffer)
    if not (is_zero r.ret)
        then pure (cs_device_not_available, props)
        else if ltb size required
        then (if leb sizeof_csx_properties size
            then copy_out props r.buffer sizeof_csx_properties cs_invalid_length
            else pure (cs_invalid_length, props))
        else copy_out props r.buffer required cs_success

  unfoldable pub get_capabilities : ℤ → List ℕ → M S (CsStatus × List ℕ)
  get_capabilities fd caps = do
    r ← passthru fd tsp_cs_get tsp_cs_caps 0 0 [] 0
    if is_zero r.ret
        then copy_out caps r.buffer sizeof_capabilities cs_success
        else pure (cs_device_not_available, caps)

  -- The copy has the size of the pointer `fid`, 8, and not that of what it points to.
  unfoldable pub get_function_id : ℤ → ℕ → List ℕ → M S (CsStatus × List ℕ)
  get_function_id fd f fid = do
    r ← passthru fd tsp_cs_get tsp_cs_fun (f % 2 ^ 32) (f / 2 ^ 32 % 2 ^ 32) [] 0
    if is_zero r.ret
        then copy_out fid r.buffer 8 cs_success
        else pure (cs_device_not_available, fid)

  -- `addr` is not null where the file calls the function. The address that it points to is
  -- returned, which is 0, as it was before the call, unless the device gives another.
  pub allocate_memory : ℤ → ℤ → M S (CsStatus × ℕ)
  allocate_memory fd bytes = do
    r ← passthru fd tsp_cs_allocate tsp_cs_mem (to_u32 bytes) 0 [] 0
    let addr = field 0 8 r.buffer
    if is_zero r.ret
        then (if addr == 0 then pure (cs_not_enough_memory, 0) else pure (cs_success, addr))
        else pure (cs_device_not_available, 0)

  -- `req` is the memory from the request on. What the pass-through returns is returned.
  pub compute_operation : List ℕ → M S ℤ
  compute_operation req = do
    let fd = to_int (field 0 4 req)
    let req_size = request_size (to_int (field num_args_offset 4 req))
    payload ← lift (memcpy_local buffer_len req req_size)
    r ← passthru fd tsp_cs_compute 0 (req_size % 2 ^ 32) 0 payload 3600000
    pure r.ret
