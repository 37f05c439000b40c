-- ===== src/Cs/Types/Layout.antt =====
-- The properties of a device as host/snia_cs_api/cs.h lays them out in memory.
use nvme_csd.Base.{
  ℕ, ◌+◌, ◌-◌, ◌*◌, ◌^◌, ◌<◌, ◌≡◌, refl, sym, ap, ◌∙◌, arith, List, [], ◌∷◌, ◌++◌, Bool, true,
  false, length, take, drop, replicate, length-append, length-replicate, append_assoc, drop-drop,
  field, le_bytes, le_value, IsText,
}

-- `CSEProperties`
pub record CseProperties : Type 0 where
  pub hw_version : ℕ
  pub sw_version : ℕ
  pub unique_name : List ℕ
  pub num_builtin_functions : ℕ
  pub max_requests_per_batch : ℕ
  pub max_function_parameters : ℕ
  pub max_concurrent_instances : ℕ

-- The bit fields `Flags` of `CSxProperties`.
pub record CsxFlags : Type 0 where
  pub fdm_is_device_managed : Bool
  pub fdm_is_host_visible : Bool
  pub batch_requests_supported : Bool
  pub streams_supported : Bool
  pub reserved : ℕ

-- `CSxProperties`, with as many CSEs as there are.
pub record CsxProperties : Type 0 where
  pub hw_version : ℕ
  pub sw_version : ℕ
  pub vendor_id : ℕ
  pub device_id : ℕ
  pub friendly_name : List ℕ
  pub cfm_min_mb : ℕ
  pub fdm_min_mb : ℕ
  pub flags : CsxFlags
  pub cses : List CseProperties

-- A name in a field of 32 bytes.
unfoldable pub name_bytes : List ℕ → List ℕ
name_bytes name = name ++ replicate (32 - length name) 0

abbrev pub bit : Bool → ℕ
bit true = 1
bit false = 0

-- The word that the bit fields share.
abbrev pub flags_word : CsxFlags → ℕ
flags_word f =
    bit f.fdm_is_device_managed
    + 2 * bit f.fdm_is_host_visible
    + 4 * bit f.batch_requests_supported
    + 8 * bit f.streams_supported
    + 16 * f.reserved

-- The numbers behind the name of a CSE, and what follows them.
abbrev pub cse_tail : CseProperties → List ℕ → List ℕ
cse_tail c rest =
    le_bytes 2 c.num_builtin_functions
    ++ (le_bytes 4 c.max_requests_per_batch
        ++ (le_bytes 4 c.max_function_parameters
            ++ (le_bytes 4 c.max_concurrent_instances ++ rest)))

-- The CSEs one behind the other, and what follows them.
abbrev pub cses_bytes : List CseProperties → List ℕ → List ℕ
cses_bytes [] rest = rest
cses_bytes (c ∷ cses) rest =
    le_bytes 2 c.hw_version
    ++ (le_bytes 2 c.sw_version ++ (name_bytes c.unique_name ++ cse_tail c (cses_bytes cses rest)))

-- What stands behind the name of a device, and what follows it.
abbrev pub csx_tail : CsxProperties → List ℕ → List ℕ
csx_tail p rest =
    le_bytes 4 p.cfm_min_mb
    ++ (le_bytes 4 p.fdm_min_mb
        ++ (le_bytes 8 (flags_word p.flags)
            ++ (le_bytes 2 (length p.cses) ++ cses_bytes p.cses rest)))

-- The structure, and what follows it.
abbrev pub csx_bytes : CsxProperties → List ℕ → List ℕ
csx_bytes p rest =
    le_bytes 2 p.hw_version
    ++ (le_bytes 2 p.sw_version
        ++ (le_bytes 2 p.vendor_id
            ++ (le_bytes 2 p.device_id ++ (name_bytes p.friendly_name ++ csx_tail p rest))))

-- A name fits into its field with its NUL.
pub record IsName (name : List ℕ) : Type 0 where
  pub text : IsText name
  pub short : length name < 32

-- The numbers fit into their fields.
pub record IsCse (c : CseProperties) : Type 0 where
  pub hw_version : c.hw_version < 2 ^ 16
  pub sw_version : c.sw_version < 2 ^ 16
  pub unique_name : IsName c.unique_name
  pub num_builtin_functions : c.num_builtin_functions < 2 ^ 16
  pub max_requests_per_batch : c.max_requests_per_batch < 2 ^ 32
  pub max_function_parameters : c.max_function_parameters < 2 ^ 32
  pub max_concurrent_instances : c.max_concurrent_instances < 2 ^ 32

abbrev pub AreCses : List CseProperties → Type 0
AreCses [] = Unit
AreCses (c ∷ cses) = IsCse c × AreCses cses

pub record IsCsx (p : CsxProperties) : Type 0 where
  pub hw_version : p.hw_version < 2 ^ 16
  pub sw_version : p.sw_version < 2 ^ 16
  pub vendor_id : p.vendor_id < 2 ^ 16
  pub device_id : p.device_id < 2 ^ 16
  pub friendly_name : IsName p.friendly_name
  pub cfm_min_mb : p.cfm_min_mb < 2 ^ 32
  pub fdm_min_mb : p.fdm_min_mb < 2 ^ 32
  pub reserved : p.flags.reserved < 2 ^ 60
  pub count : length p.cses < 2 ^ 16
  pub cses : AreCses p.cses

pub length-name_bytes : (name : List ℕ) → IsName name → length (name_bytes name) ≡ 32
unfolding name_bytes
length-name_bytes name h = omega (
  arith,
  h.short,
  length-append name (replicate (32 - length name) 0),
  length-replicate {A = ℕ} (32 - length name) 0,
)

-- What stands behind `j` more bytes.
pub drop_at :
    (off j o : ℕ) (memory bytes rest : List ℕ)
    → drop off memory ≡ bytes
    → o ≡ off + j
    → drop j bytes ≡ rest
    → drop o memory ≡ rest
drop_at off j o memory bytes rest e same behind =
    sym (drop-drop j off o memory (omega arith)) ∙ ap (drop j) e ∙ behind

-- A field behind the start of a structure.
pub field_at :
    (off j o k v : ℕ) (memory bytes : List ℕ)
    → drop off memory ≡ bytes
    → o ≡ off + j
    → field j k bytes ≡ v
    → field o k memory ≡ v
field_at off j o k v memory bytes e same value =
    ap (λ (l : List ℕ). le_value (take k l))
      (drop_at off j o memory bytes (drop j bytes) e same refl)
    ∙ value

pub length-cses_bytes :
    (cses : List CseProperties) (rest : List ℕ)
    → AreCses cses
    → length (cses_bytes cses rest) ≡ 50 * length cses + length rest
length-cses_bytes [] rest h = omega arith
length-cses_bytes (c ∷ cses) rest h = omega (
  arith,
  length-cses_bytes cses rest h.1,
  length-name_bytes c.unique_name h.0.unique_name,
  length-append (name_bytes c.unique_name) (cse_tail c (cses_bytes cses rest)),
)

pub length-csx_bytes :
    (p : CsxProperties) (rest : List ℕ)
    → IsCsx p
    → length (csx_bytes p rest) ≡ 58 + 50 * length p.cses + length rest
length-csx_bytes p rest h = omega (
  arith,
  length-cses_bytes p.cses rest h.cses,
  length-name_bytes p.friendly_name h.friendly_name,
  length-append (name_bytes p.friendly_name) (csx_tail p rest),
)

cses_bytes-append :
    (cses : List CseProperties) (a b : List ℕ) → cses_bytes cses (a ++ b) ≡ cses_bytes cses a ++ b
cses_bytes-append [] a b = refl
cses_bytes-append (c ∷ cses) a b =
    rw
      (
        cses_bytes-append cses a b,
        append_assoc (name_bytes c.unique_name) (cse_tail c (cses_bytes cses a)) b,
      )
      refl

pub csx_bytes-append :
    (p : CsxProperties) (a b : List ℕ) → csx_bytes p (a ++ b) ≡ csx_bytes p a ++ b
csx_bytes-append p a b =
    rw (cses_bytes-append p.cses a b, append_assoc (name_bytes p.friendly_name) (csx_tail p a) b)
      refl
