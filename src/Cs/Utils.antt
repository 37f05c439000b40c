-- ===== src/Cs/Utils.antt =====
-- host/snia_cs_api/cs_utils.c: what is printed of the properties of a device, as lines of values
-- read from memory. `none` is a read outside the memory.
pub mod Reads
pub mod Shows
use nvme_csd.Base.{
  ℕ, zero, suc, ◌+◌, ◌*◌, ◌/◌, ◌%◌, ◌^◌, List, [], ◌∷◌, ◌++◌, Option, none, some, Bool, length,
  drop, field, leb, ◌==◌, if◌then◌else◌,
}
use nvme_csd.Cs.Types.{cse_offset, num_cses_offset, sizeof_cse_properties}

infixl 5 ◌>>=◌
abbrev pub ◌>>=◌ : {A B : Type 0} → Option A → (A → Option B) → Option B
none >>= f = none
some a >>= f = f a

-- A `printf` of the file.
pub data Line : Type 0 where
  hw_version sw_version vendor_id device_id : ℕ → Line
  friendly_name unique_name : List ℕ → Line
  cfm_min_mb fdm_min_mb number_of_cses cse_number : ℕ → Line
  fdm_is_device_managed fdm_is_host_visible batch_requests_support streams_support : Bool → Line
  num_builtin max_requests_per_batch max_function_parameters max_instances : ℕ → Line

-- A field of `k` bytes.
pub read_field : List ℕ → ℕ → ℕ → Option ℕ
read_field memory off k = if leb (off + k) (length memory) then some (field off k memory) else none

-- The text of a `%s`: up to the first NUL, which has to be there.
unfoldable pub read_text : List ℕ → Option (List ℕ)
read_text [] = none
read_text (b ∷ bytes) =
    let rest = read_text bytes in if b == 0 then some [] else (rest >>= λ text. some (b ∷ text))

-- `props->Flags.<flag>`, a bit.
abbrev pub flag : ℕ → ℕ → Bool
flag w n = (w / 2 ^ n) % 2 == 1

-- `printCSEProperties`, of the structure at `off`.
pub print_cse_properties : List ℕ → ℕ → Option (List Line)
print_cse_properties memory off = do
  hw ← read_field memory off 2
  sw ← read_field memory (off + 2) 2
  name ← read_text (drop (off + 4) memory)
  builtin ← read_field memory (off + 36) 2
  batch ← read_field memory (off + 38) 4
  parameters ← read_field memory (off + 42) 4
  instances ← read_field memory (off + 46) 4
  some (
      hw_version hw
      ∷ sw_version sw
      ∷ unique_name name
      ∷ num_builtin builtin
      ∷ max_requests_per_batch batch
      ∷ max_function_parameters parameters
      ∷ max_instances instances
      ∷ [])

-- The loop over CSEs, `n` of them from number `i` on.
pub print_cses : List ℕ → ℕ → ℕ → Option (List Line)
print_cses memory i zero = some []
print_cses memory i (suc n) =
    print_cse_properties memory (cse_offset + sizeof_cse_properties * i) >>= λ lines.
    print_cses memory (i + 1) n >>= λ more. some (cse_number i ∷ lines ++ more)

-- `printCSxProperties`, of the structure at the start of the memory.
pub print_csx_properties : List ℕ → Option (List Line)
print_csx_properties memory = do
  hw ← read_field memory 0 2
  sw ← read_field memory 2 2
  vendor ← read_field memory 4 2
  device ← read_field memory 6 2
  name ← read_text (drop 8 memory)
  cfm ← read_field memory 40 4
  fdm ← read_field memory 44 4
  flags ← read_field memory 48 8
  cses ← read_field memory num_cses_offset 2
  lines ← print_cses memory 0 cses
  some (
      hw_version hw
      ∷ sw_version sw
      ∷ vendor_id vendor
      ∷ device_id device
      ∷ friendly_name name
      ∷ cfm_min_mb cfm
      ∷ fdm_min_mb fdm
      ∷ fdm_is_device_managed (flag flags 0)
      ∷ fdm_is_host_visible (flag flags 1)
      ∷ batch_requests_support (flag flags 2)
      ∷ streams_support (flag flags 3)
      ∷ number_of_cses cses
      ∷ lines)
