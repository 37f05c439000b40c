-- ===== src/Cs/Types.antt =====
-- The types of host/snia_cs_api/cs.h: status codes, argument types, and the packed layouts.
pub mod Layout
pub mod Request
pub mod Capabilities
use nvme_csd.Base.{
  true, false, ◌≡◌, ◌≢◌, refl, subst, ℕ, ◌+◌, ◌/◌, ◌^◌, ◌%◌, List, Bool, field, ◌==◌,
}

-- `CS_STATUS`
pub data CsStatus : Type 0 where
  cs_success cs_could_not_map_memory cs_device_error cs_device_not_available : CsStatus
  cs_device_not_ready cs_device_not_present cs_enodev cs_entity_not_on_device : CsStatus
  cs_enxio cs_error_in_execution cs_fatal_error cs_handle_in_use : CsStatus
  cs_invalid_handle cs_invalid_arg cs_invalid_event cs_invalid_id : CsStatus
  cs_invalid_length cs_invalid_option cs_invalid_function cs_invalid_function_name : CsStatus
  cs_io_timeout cs_load_error cs_memory_in_use cs_no_permissions : CsStatus
  cs_not_done cs_not_enough_memory cs_no_such_entity_exists cs_out_of_resources : CsStatus
  cs_queued cs_unknown_memory cs_unknown_compute_function cs_unsupported : CsStatus

-- The value of an enumerator.
pub status_code : CsStatus → ℕ
status_code cs_success = 0
status_code cs_could_not_map_memory = 1
status_code cs_device_error = 2
status_code cs_device_not_available = 3
status_code cs_device_not_ready = 4
status_code cs_device_not_present = 5
status_code cs_enodev = 6
status_code cs_entity_not_on_device = 7
status_code cs_enxio = 8
status_code cs_error_in_execution = 9
status_code cs_fatal_error = 10
status_code cs_handle_in_use = 11
status_code cs_invalid_handle = 12
status_code cs_invalid_arg = 13
status_code cs_invalid_event = 14
status_code cs_invalid_id = 15
status_code cs_invalid_length = 16
status_code cs_invalid_option = 17
status_code cs_invalid_function = 18
status_code cs_invalid_function_name = 19
status_code cs_io_timeout = 20
status_code cs_load_error = 21
status_code cs_memory_in_use = 22
status_code cs_no_permissions = 23
status_code cs_not_done = 24
status_code cs_not_enough_memory = 25
status_code cs_no_such_entity_exists = 26
status_code cs_out_of_resources = 27
status_code cs_queued = 28
status_code cs_unknown_memory = 29
status_code cs_unknown_compute_function = 30
status_code cs_unsupported = 31

-- `status == CS_SUCCESS`
unfoldable pub is_success : CsStatus → Bool
unfolding status_code
is_success s = status_code s == 0

pub is_success_iff : (s : CsStatus) → is_success s ≡ true → s ≡ cs_success
unfolding is_success
is_success_iff cs_success h = refl
is_success_iff s h = cc

pub not_success_iff : (s : CsStatus) → is_success s ≡ false → s ≢ cs_success
unfolding is_success
not_success_iff s h e =
    let t : is_success cs_success ≡ false = subst (λ x. is_success x ≡ false) e h in cc

-- `CS_COMPUTE_ARG_TYPE`
pub data ArgType : Type 0 where
  cs_afdm_type cs_32bit_value_type cs_64bit_value_type cs_stream_type cs_descriptor_type : ArgType

unfoldable pub arg_type_code : ArgType → ℕ
arg_type_code cs_afdm_type = 1
arg_type_code cs_32bit_value_type = 2
arg_type_code cs_64bit_value_type = 3
arg_type_code cs_stream_type = 4
arg_type_code cs_descriptor_type = 5

-- `sizeof(CSEProperties)`: two versions, a name, a count and three limits, packed.
abbrev pub sizeof_cse_properties : ℕ
sizeof_cse_properties = 2 + 2 + 32 + 2 + 4 + 4 + 4

-- The offset of the array `CSE` in `CSxProperties`, behind `NumCSEs`; the structure holds one CSE.
abbrev pub cse_offset : ℕ
cse_offset = 2 + 2 + 2 + 2 + 32 + 4 + 4 + 8 + 2

abbrev pub num_cses_offset : ℕ
num_cses_offset = 2 + 2 + 2 + 2 + 32 + 4 + 4 + 8

abbrev pub sizeof_csx_properties : ℕ
sizeof_csx_properties = cse_offset + sizeof_cse_properties

-- The field `NumCSEs` of a `CSxProperties` at the start of `bytes`.
abbrev pub num_cses : List ℕ → ℕ
num_cses bytes = field num_cses_offset 2 bytes

-- The field `NumBuiltinFunctions` of the first CSE.
abbrev pub num_builtin_functions : List ℕ → ℕ
num_builtin_functions bytes = field (cse_offset + (2 + 2 + 32)) 2 bytes

-- `sizeof(CsCapabilities)`: one word of bit fields.
abbrev pub sizeof_capabilities : ℕ
sizeof_capabilities = 8

-- The bit fields of `CsCapabilities`, from bit 0 on.
pub data CsFunction : Type 0 where
  compression decompression encryption decryption raid ec dedup hash checksum : CsFunction
  reg_ex db_filter image_encode video_encode : CsFunction

pub function_bit : CsFunction → ℕ
function_bit compression = 0
function_bit decompression = 1
function_bit encryption = 2
function_bit decryption = 3
function_bit raid = 4
function_bit ec = 5
function_bit dedup = 6
function_bit hash = 7
function_bit checksum = 8
function_bit reg_ex = 9
function_bit db_filter = 10
function_bit image_encode = 11
function_bit video_encode = 12

-- `CsFunctionBitSelect fun = {0,}; fun.Functions.<f> = 1;` as a 64-bit word.
unfoldable pub select_function : CsFunction → ℕ
unfolding function_bit
select_function f = 2 ^ function_bit f

-- The bit field of `f` in a word of capabilities.
pub has_function : ℕ → CsFunction → Bool
unfolding function_bit
has_function w f = (w / 2 ^ function_bit f) % 2 == 1

-- `sizeof(CsComputeArg)`: the type, and a union whose largest member is `CsDevAFDM`.
abbrev pub sizeof_compute_arg : ℕ
sizeof_compute_arg = 4 + (8 + 8)

-- `sizeof(CsComputeRequest)`, with one argument.
abbrev pub sizeof_compute_request : ℕ
sizeof_compute_request = 4 + 4 + 4 + sizeof_compute_arg

-- The offset of `NumArgs`, and of `Args`, in a request.
abbrev pub num_args_offset : ℕ
num_args_offset = 8

abbrev pub args_offset : ℕ
args_offset = 12
