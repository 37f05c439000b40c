-- ===== src/Cs/Types/Request.antt =====
-- Compute requests as host/snia_cs_api/cs.h lays them out in memory.
use nvme_csd.Base.{
  ℕ, ◌+◌, ◌*◌, ◌≡◌, refl, ap, sym, ◌∙◌, arith, ℤ, to_u32, List, [], ◌∷◌, ◌++◌, length, replicate,
  le_bytes, length-append, append_assoc,
}
use nvme_csd.Cs.Types.{
  ArgType, arg_type_code, cs_afdm_type, cs_32bit_value_type, cs_64bit_value_type, cs_stream_type,
}

-- `CsDevAFDM`
pub record DevAfdm : Type 0 where
  pub mem_handle : ℕ
  pub byte_offset : ℕ

-- `CsComputeArg`: the member of the union goes with the type.
pub data ComputeArg : Type 0 where
  dev_mem : DevAfdm → ComputeArg
  value64 value32 stream_handle : ℕ → ComputeArg

-- `CsComputeRequest`, with as many arguments as there are.
pub record ComputeRequest : Type 0 where
  pub cse_handle : ℤ
  pub function_id : ℕ
  pub args : List ComputeArg

abbrev pub type_of : ComputeArg → ArgType
type_of (dev_mem d) = cs_afdm_type
type_of (value64 v) = cs_64bit_value_type
type_of (value32 v) = cs_32bit_value_type
type_of (stream_handle v) = cs_stream_type

-- The 16 bytes of the union, those that the member does not cover being zero.
abbrev pub value_of : ComputeArg → List ℕ
value_of (dev_mem d) = le_bytes 8 d.mem_handle ++ le_bytes 8 d.byte_offset
value_of (value64 v) = le_bytes 8 v ++ replicate 8 0
value_of (value32 v) = le_bytes 4 v ++ replicate 12 0
value_of (stream_handle v) = le_bytes 8 v ++ replicate 8 0

-- The arguments one behind the other, and what follows them.
abbrev pub args_bytes : List ComputeArg → List ℕ → List ℕ
args_bytes [] rest = rest
args_bytes (a ∷ args) rest =
    le_bytes 4 (arg_type_code (type_of a)) ++ (value_of a ++ args_bytes args rest)

-- The request, and what follows it.
abbrev pub request_bytes : ComputeRequest → List ℕ → List ℕ
request_bytes r rest =
    le_bytes 4 (to_u32 r.cse_handle)
    ++ (le_bytes 4 r.function_id ++ (le_bytes 4 (length r.args) ++ args_bytes r.args rest))

length-value_of : (a : ComputeArg) → length (value_of a) ≡ 16
length-value_of (dev_mem d) = refl
length-value_of (value64 v) = refl
length-value_of (value32 v) = refl
length-value_of (stream_handle v) = refl

length-args_bytes :
    (args : List ComputeArg) (rest : List ℕ)
    → length (args_bytes args rest) ≡ 20 * length args + length rest
length-args_bytes [] rest = omega arith
length-args_bytes (a ∷ args) rest = omega (
  arith,
  length-append (value_of a) (args_bytes args rest),
  length-value_of a,
  length-args_bytes args rest,
)

-- A request has 12 bytes and 20 for each argument.
pub length-request_bytes :
    (r : ComputeRequest) (rest : List ℕ)
    → length (request_bytes r rest) ≡ 12 + 20 * length r.args + length rest
length-request_bytes r rest = omega (arith, length-args_bytes r.args rest)

args_bytes-append :
    (args : List ComputeArg) (rest : List ℕ) → args_bytes args rest ≡ args_bytes args [] ++ rest
args_bytes-append [] rest = refl
args_bytes-append (a ∷ args) rest =
    ap (λ (l : List ℕ). le_bytes 4 (arg_type_code (type_of a)) ++ l)
      (ap (λ (l : List ℕ). value_of a ++ l) (args_bytes-append args rest)
        ∙ sym (append_assoc (value_of a) (args_bytes args []) rest))

pub request_bytes-append :
    (r : ComputeRequest) (rest : List ℕ) → request_bytes r rest ≡ request_bytes r [] ++ rest
request_bytes-append r rest =
    ap
      (λ (l : List ℕ).
        le_bytes 4 (to_u32 r.cse_handle)
        ++ (le_bytes 4 r.function_id ++ (le_bytes 4 (length r.args) ++ l)))
      (args_bytes-append r.args rest)
