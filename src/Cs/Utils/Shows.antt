-- ===== src/Cs/Utils/Shows.antt =====
-- host/snia_cs_api/cs_utils.c prints what a device says of itself.
use nvme_csd.Base.{
  ℕ, suc, ◌+◌, ◌-◌, ◌*◌, ◌/◌, ◌%◌, ◌^◌, ◌≤◌, ◌<◌, ◌≡◌, refl, ap, ◌∙◌, arith, List, [], ◌∷◌, ◌++◌,
  some, Bool, true, false, length, drop, replicate, length-drop, drop-append, append_assoc, field,
  IsText, ◌==◌, ne→==,
}
use nvme_csd.Cs.Types.Layout.{
  CseProperties, CsxFlags, CsxProperties, name_bytes, bit, flags_word, cse_tail, cses_bytes,
  csx_tail, csx_bytes, IsName, IsCse, AreCses, IsCsx, length-name_bytes, field_at, drop_at,
  length-cses_bytes,
}
use nvme_csd.Cs.Utils.{
  flag, hw_version, sw_version, unique_name, num_builtin, max_requests_per_batch,
  max_function_parameters, max_instances, vendor_id, device_id, friendly_name, cfm_min_mb,
  fdm_min_mb, fdm_is_device_managed, fdm_is_host_visible, batch_requests_support, streams_support,
  number_of_cses, cse_number, Line, read_field, read_text, print_cse_properties, print_cses,
  print_csx_properties,
}
use nvme_csd.Cs.Utils.Reads.{read_field_lem, print_cse_fits, cse_lines}

-- The lines for a CSE, for some from number `i` on, and for a device.
abbrev pub cse_shown : CseProperties → List Line
cse_shown c =
    hw_version c.hw_version
    ∷ sw_version c.sw_version
    ∷ unique_name c.unique_name
    ∷ num_builtin c.num_builtin_functions
    ∷ max_requests_per_batch c.max_requests_per_batch
    ∷ max_function_parameters c.max_function_parameters
    ∷ max_instances c.max_concurrent_instances
    ∷ []

abbrev pub cses_shown : ℕ → List CseProperties → List Line
cses_shown i [] = []
cses_shown i (c ∷ cses) = cse_number i ∷ cse_shown c ++ cses_shown (i + 1) cses

abbrev pub csx_shown : CsxProperties → List Line
csx_shown p =
    hw_version p.hw_version
    ∷ sw_version p.sw_version
    ∷ vendor_id p.vendor_id
    ∷ device_id p.device_id
    ∷ friendly_name p.friendly_name
    ∷ cfm_min_mb p.cfm_min_mb
    ∷ fdm_min_mb p.fdm_min_mb
    ∷ fdm_is_device_managed p.flags.fdm_is_device_managed
    ∷ fdm_is_host_visible p.flags.fdm_is_host_visible
    ∷ batch_requests_support p.flags.batch_requests_supported
    ∷ streams_support p.flags.streams_supported
    ∷ number_of_cses (length p.cses)
    ∷ cses_shown 0 p.cses

read_text-append : (text rest : List ℕ) → IsText text → read_text (text ++ (0 ∷ rest)) ≡ some text
unfolding read_text
read_text-append [] rest h = refl
read_text-append (b ∷ text) rest h = rw (read_text-append text rest h.1, ne→== b 0 h.0) refl

read_text-name_bytes :
    (name rest : List ℕ) → IsName name → read_text (name_bytes name ++ rest) ≡ some name
unfolding name_bytes
read_text-name_bytes name rest h =
    let more : 32 - length name ≡ suc (31 - length name) = omega (arith, h.short) in
    rw (append_assoc name (replicate (32 - length name) 0) rest)
      (rw more (read_text-append name (replicate (31 - length name) 0 ++ rest) h.text))

bit_test : (b : Bool) → (bit b == 1) ≡ b
bit_test true = refl
bit_test false = refl

bit_bound : (b : Bool) → bit b < 2
bit_bound true = omega arith
bit_bound false = omega arith

-- The bytes of one CSE behind `drop off memory`.
module _ (memory : List ℕ) (off : ℕ) (c : CseProperties) (cses : List CseProperties) (rest : List ℕ)
    (h : IsCse c) (there : drop off memory ≡ cses_bytes (c ∷ cses) rest) where
  -- The numbers behind the name.
  abbrev numbers : List ℕ
  numbers = cse_tail c (cses_bytes cses rest)

  drop-name : drop (off + 4) memory ≡ name_bytes c.unique_name ++ numbers
  drop-name = drop_at off 4 (off + 4) memory (cses_bytes (c ∷ cses) rest) _ there refl refl

  drop-numbers : drop (off + 36) memory ≡ numbers
  drop-numbers =
      drop_at (off + 4) 32 (off + 36) memory (name_bytes c.unique_name ++ numbers) numbers drop-name
        (omega arith)
        (drop-append 32 (name_bytes c.unique_name) numbers
          (length-name_bytes c.unique_name h.unique_name))

  drop-cses : drop (off + 50) memory ≡ cses_bytes cses rest
  drop-cses =
      drop_at (off + 36) 14 (off + 50) memory numbers (cses_bytes cses rest) drop-numbers
        (omega arith) refl

  number_at : (j o k v : ℕ) → o ≡ off + 36 + j → field j k numbers ≡ v → field o k memory ≡ v
  number_at j o k v = field_at (off + 36) j o k v memory numbers drop-numbers

  cse_lines-cses_bytes : cse_lines memory off c.unique_name ≡ cse_shown c
  cse_lines-cses_bytes =
      rw
        (
          field_at off 0 off 2 c.hw_version memory (cses_bytes (c ∷ cses) rest) there (omega arith)
              (omega (arith, h.hw_version)),
          field_at off 2 (off + 2) 2 c.sw_version memory (cses_bytes (c ∷ cses) rest) there
              (omega arith) (omega (arith, h.sw_version)),
          number_at 0 (off + 36) 2 c.num_builtin_functions (omega arith)
              (omega (arith, h.num_builtin_functions)),
          number_at 2 (off + 38) 4 c.max_requests_per_batch (omega arith)
              (omega (arith, h.max_requests_per_batch)),
          number_at 6 (off + 42) 4 c.max_function_parameters (omega arith)
              (omega (arith, h.max_function_parameters)),
          number_at 10 (off + 46) 4 c.max_concurrent_instances (omega arith)
              (omega (arith, h.max_concurrent_instances)),
        )
        refl

print_cses-cses_bytes :
    (memory : List ℕ) (i : ℕ) (cses : List CseProperties) (rest : List ℕ)
    → AreCses cses
    → drop (58 + 50 * i) memory ≡ cses_bytes cses rest
    → print_cses memory i (length cses) ≡ some (cses_shown i cses)
unfolding print_cses
print_cses-cses_bytes memory i [] rest h there = refl
print_cses-cses_bytes memory i (c ∷ cses) rest h there =
    let off : ℕ = 58 + 50 * i in
    let room : off + 50 ≤ length memory =
      omega (arith, length-drop off memory, ap length there, length-cses_bytes (c ∷ cses) rest h) in
    let named : read_text (drop (off + 4) memory) ≡ some c.unique_name =
      ap read_text (drop-name memory off c cses rest h.0 there)
      ∙ read_text-name_bytes c.unique_name (numbers memory off c cses rest h.0 there)
          h.0.unique_name in
    let next : 58 + 50 * (i + 1) ≡ off + 50 = omega arith in
    let later : drop (58 + 50 * (i + 1)) memory ≡ cses_bytes cses rest =
      ap (λ o. drop o memory) next ∙ drop-cses memory off c cses rest h.0 there in
    let shown : print_cse_properties memory off ≡ some (cse_shown c) =
      print_cse_fits memory off c.unique_name room named
      ∙ ap some (cse_lines-cses_bytes memory off c cses rest h.0 there) in
    rw (shown, print_cses-cses_bytes memory (i + 1) cses rest h.1 later) refl

-- The bit fields read back from their word.
flag-flags_word :
    (f : CsxFlags)
    → (flag (flags_word f) 0 ≡ f.fdm_is_device_managed)
      × (flag (flags_word f) 1 ≡ f.fdm_is_host_visible)
      × (flag (flags_word f) 2 ≡ f.batch_requests_supported)
      × (flag (flags_word f) 3 ≡ f.streams_supported)
flag-flags_word f =
    let a = bit_bound f.fdm_is_device_managed in
    let b = bit_bound f.fdm_is_host_visible in
    let c = bit_bound f.batch_requests_supported in
    let d = bit_bound f.streams_supported in
    let w = flags_word f in
    let w₀ : w / 2 ^ 0 % 2 ≡ bit f.fdm_is_device_managed = omega arith in
    let w₁ : w / 2 ^ 1 % 2 ≡ bit f.fdm_is_host_visible = omega arith in
    let w₂ : w / 2 ^ 2 % 2 ≡ bit f.batch_requests_supported = omega arith in
    let w₃ : w / 2 ^ 3 % 2 ≡ bit f.streams_supported = omega arith in
    (
      ap (λ n. n == 1) w₀ ∙ bit_test f.fdm_is_device_managed,
      ap (λ n. n == 1) w₁ ∙ bit_test f.fdm_is_host_visible,
      ap (λ n. n == 1) w₂ ∙ bit_test f.batch_requests_supported,
      ap (λ n. n == 1) w₃ ∙ bit_test f.streams_supported,
    )

-- The structure of a device at the start of the memory.
module _ (memory : List ℕ) (p : CsxProperties) (rest : List ℕ) (h : IsCsx p)
    (there : drop 0 memory ≡ csx_bytes p rest) where
  drop-friendly_name : drop 8 memory ≡ name_bytes p.friendly_name ++ csx_tail p rest
  drop-friendly_name = drop_at 0 8 8 memory (csx_bytes p rest) _ there (omega arith) refl

  pub drop-tail : drop 40 memory ≡ csx_tail p rest
  drop-tail =
      drop_at 8 32 40 memory (name_bytes p.friendly_name ++ csx_tail p rest) (csx_tail p rest)
        drop-friendly_name (omega arith)
        (drop-append 32 (name_bytes p.friendly_name) (csx_tail p rest)
          (length-name_bytes p.friendly_name h.friendly_name))

  room : 58 ≤ length memory
  room =
      omega
        (arith, length-drop 40 memory, ap length drop-tail, length-cses_bytes p.cses rest h.cses)

  head_at :
      (o k v : ℕ) → o + k ≤ 58 → field o k (csx_bytes p rest) ≡ v → read_field memory o k ≡ some v
  head_at o k v inside value =
      read_field_lem memory o k (omega (arith, room))
      ∙ ap some (field_at 0 o o k v memory (csx_bytes p rest) there (omega arith) value)

  tail_at :
      (j o k v : ℕ)
      → o ≡ 40 + j
      → o + k ≤ 58
      → field j k (csx_tail p rest) ≡ v
      → read_field memory o k ≡ some v
  tail_at j o k v same inside value =
      read_field_lem memory o k (omega (arith, room))
      ∙ ap some (field_at 40 j o k v memory (csx_tail p rest) drop-tail same value)

  print_csx-csx_bytes : print_csx_properties memory ≡ some (csx_shown p)
  unfolding print_csx_properties
  print_csx-csx_bytes =
      let (f₀, f₁, f₂, f₃) = flag-flags_word p.flags in
      let a = bit_bound p.flags.fdm_is_device_managed in
      let b = bit_bound p.flags.fdm_is_host_visible in
      let c = bit_bound p.flags.batch_requests_supported in
      let d = bit_bound p.flags.streams_supported in
      rw
        (
          head_at 0 2 p.hw_version (omega arith) (omega (arith, h.hw_version)),
          head_at 2 2 p.sw_version (omega arith) (omega (arith, h.sw_version)),
          head_at 4 2 p.vendor_id (omega arith) (omega (arith, h.vendor_id)),
          head_at 6 2 p.device_id (omega arith) (omega (arith, h.device_id)),
          ap read_text drop-friendly_name
              ∙ read_text-name_bytes p.friendly_name (csx_tail p rest) h.friendly_name,
          tail_at 0 40 4 p.cfm_min_mb (omega arith) (omega arith) (omega (arith, h.cfm_min_mb)),
          tail_at 4 44 4 p.fdm_min_mb (omega arith) (omega arith) (omega (arith, h.fdm_min_mb)),
          tail_at 8 48 8 (flags_word p.flags) (omega arith) (omega arith)
              (omega (arith, h.reserved)),
          tail_at 16 56 2 (length p.cses) (omega arith) (omega arith) (omega (arith, h.count)),
          print_cses-cses_bytes memory 0 p.cses rest h.cses (
              drop_at 40 18 58 memory (csx_tail p rest) (cses_bytes p.cses rest) drop-tail
                (omega arith) refl),
        )
        (rw (f₀, f₁, f₂, f₃) refl)

-- The structure of a device whose numbers fit into their fields and whose names fit with their NUL,
-- with any number of CSEs, in memory that starts with it: every value of it is printed, in its order.
pub print_csx_properties-csx_bytes :
    (p : CsxProperties) (rest : List ℕ)
    → IsCsx p
    → print_csx_properties (csx_bytes p rest) ≡ some (csx_shown p)
print_csx_properties-csx_bytes p rest h = print_csx-csx_bytes (csx_bytes p rest) p rest h refl
