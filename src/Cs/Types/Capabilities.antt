-- ===== src/Cs/Types/Capabilities.antt =====
-- The capabilities of a device as host/snia_cs_api/cs.h lays them out in one word.
use nvme_csd.Base.{ℕ, ◌+◌, ◌*◌, ◌^◌, ◌<◌, ◌≡◌, refl, arith, List, [], ◌∷◌, Bool, true, false, ◌==◌}
use nvme_csd.Cs.Types.{
  CsFunction, compression, decompression, encryption, decryption, raid, ec, dedup, hash, checksum,
  reg_ex, db_filter, image_encode, video_encode, function_bit, select_function, has_function,
}
use nvme_csd.Cs.Types.Layout.{bit}

-- `CsCapabilities`: a bit for each kind of function, and `CustomType`.
pub record Capabilities : Type 0 where
  pub has : CsFunction → Bool
  pub custom_type : ℕ

-- The kinds in the order of their bit fields, the lowest first.
abbrev pub all_functions : List CsFunction
all_functions =
    compression ∷ decompression ∷ encryption ∷ decryption ∷ raid ∷ ec ∷ dedup ∷ hash ∷ checksum
    ∷ reg_ex ∷ db_filter ∷ image_encode ∷ video_encode ∷ []

-- The fields one above the other, the first one lowest, and `high` above them.
abbrev pub fields_word : (CsFunction → Bool) → List CsFunction → ℕ → ℕ
fields_word has [] high = high
fields_word has (f ∷ functions) high = bit (has f) + 2 * fields_word has functions high

abbrev pub capabilities_word : Capabilities → ℕ
capabilities_word c = fields_word c.has all_functions c.custom_type

bit_bound : (b : Bool) → bit b < 2
bit_bound true = omega arith
bit_bound false = omega arith

bit_test : (n : ℕ) (b : Bool) → n ≡ bit b → (n == 1) ≡ b
bit_test n true h = rw h refl
bit_test n false h = rw h refl

-- The field of a kind reads back from the word.
pub has_function-capabilities_word :
    (c : Capabilities) (f : CsFunction) → has_function (capabilities_word c) f ≡ c.has f
unfolding has_function function_bit
has_function-capabilities_word c compression =
    bit_test _ (c.has compression) (omega (arith, bit_bound (c.has compression)))
has_function-capabilities_word c decompression =
    bit_test _ (c.has decompression)
      (omega (arith, bit_bound (c.has compression), bit_bound (c.has decompression)))
has_function-capabilities_word c encryption = bit_test _ (c.has encryption) (
    omega (
      arith,
      bit_bound (c.has compression),
      bit_bound (c.has decompression),
      bit_bound (c.has encryption),
    ))
has_function-capabilities_word c decryption = bit_test _ (c.has decryption) (
    omega (
      arith,
      bit_bound (c.has compression),
      bit_bound (c.has decompression),
      bit_bound (c.has encryption),
      bit_bound (c.has decryption),
    ))
has_function-capabilities_word c raid = bit_test _ (c.has raid) (
    omega (
      arith,
      bit_bound (c.has compression),
      bit_bound (c.has decompression),
      bit_bound (c.has encryption),
      bit_bound (c.has decryption),
      bit_bound (c.has raid),
    ))
has_function-capabilities_word c ec = bit_test _ (c.has ec) (
    omega (
      arith,
      bit_bound (c.has compression),
      bit_bound (c.has decompression),
      bit_bound (c.has encryption),
      bit_bound (c.has decryption),
      bit_bound (c.has raid),
      bit_bound (c.has ec),
    ))
has_function-capabilities_word c dedup = bit_test _ (c.has dedup) (
    omega (
      arith,
      bit_bound (c.has compression),
      bit_bound (c.has decompression),
      bit_bound (c.has encryption),
      bit_bound (c.has decryption),
      bit_bound (c.has raid),
      bit_bound (c.has ec),
      bit_bound (c.has dedup),
    ))
has_function-capabilities_word c hash = bit_test _ (c.has hash) (
    omega (
      arith,
      bit_bound (c.has compression),
      bit_bound (c.has decompression),
      bit_bound (c.has encryption),
      bit_bound (c.has decryption),
      bit_bound (c.has raid),
      bit_bound (c.has ec),
      bit_bound (c.has dedup),
      bit_bound (c.has hash),
    ))
has_function-capabilities_word c checksum = bit_test _ (c.has checksum) (
    omega (
      arith,
      bit_bound (c.has compression),
      bit_bound (c.has decompression),
      bit_bound (c.has encryption),
      bit_bound (c.has decryption),
      bit_bound (c.has raid),
      bit_bound (c.has ec),
      bit_bound (c.has dedup),
      bit_bound (c.has hash),
      bit_bound (c.has checksum),
    ))
has_function-capabilities_word c reg_ex = bit_test _ (c.has reg_ex) (
    omega (
      arith,
      bit_bound (c.has compression),
      bit_bound (c.has decompression),
      bit_bound (c.has encryption),
      bit_bound (c.has decryption),
      bit_bound (c.has raid),
      bit_bound (c.has ec),
      bit_bound (c.has dedup),
      bit_bound (c.has hash),
      bit_bound (c.has checksum),
      bit_bound (c.has reg_ex),
    ))
has_function-capabilities_word c db_filter = bit_test _ (c.has db_filter) (
    omega (
      arith,
      bit_bound (c.has compression),
      bit_bound (c.has decompression),
      bit_bound (c.has encryption),
      bit_bound (c.has decryption),
      bit_bound (c.has raid),
      bit_bound (c.has ec),
      bit_bound (c.has dedup),
      bit_bound (c.has hash),
      bit_bound (c.has checksum),
      bit_bound (c.has reg_ex),
      bit_bound (c.has db_filter),
    ))
has_function-capabilities_word c image_encode = bit_test _ (c.has image_encode) (
    omega (
      arith,
      bit_bound (c.has compression),
      bit_bound (c.has decompression),
      bit_bound (c.has encryption),
      bit_bound (c.has decryption),
      bit_bound (c.has raid),
      bit_bound (c.has ec),
      bit_bound (c.has dedup),
      bit_bound (c.has hash),
      bit_bound (c.has checksum),
      bit_bound (c.has reg_ex),
      bit_bound (c.has db_filter),
      bit_bound (c.has image_encode),
    ))
has_function-capabilities_word c video_encode = bit_test _ (c.has video_encode) (
    omega (
      arith,
      bit_bound (c.has compression),
      bit_bound (c.has decompression),
      bit_bound (c.has encryption),
      bit_bound (c.has decryption),
      bit_bound (c.has raid),
      bit_bound (c.has ec),
      bit_bound (c.has dedup),
      bit_bound (c.has hash),
      bit_bound (c.has checksum),
      bit_bound (c.has reg_ex),
      bit_bound (c.has db_filter),
      bit_bound (c.has image_encode),
      bit_bound (c.has video_encode),
    ))

-- A word has 64 bits, three of them unused.
pub capabilities_word_bound :
    (c : Capabilities) → c.custom_type < 2 ^ 48 → capabilities_word c < 2 ^ 61
capabilities_word_bound c h = omega (
  arith,
  h,
  bit_bound (c.has compression),
  bit_bound (c.has decompression),
  bit_bound (c.has encryption),
  bit_bound (c.has decryption),
  bit_bound (c.has raid),
  bit_bound (c.has ec),
  bit_bound (c.has dedup),
  bit_bound (c.has hash),
  bit_bound (c.has checksum),
  bit_bound (c.has reg_ex),
  bit_bound (c.has db_filter),
  bit_bound (c.has image_encode),
  bit_bound (c.has video_encode),
)

-- The word that has the field of one kind set, and nothing else.
pub select_function-capabilities_word :
    (f : CsFunction)
    → select_function f
      ≡ capabilities_word (record { has = λ g. function_bit g == function_bit f; custom_type = 0 })
unfolding select_function function_bit
select_function-capabilities_word compression = refl
select_function-capabilities_word decompression = refl
select_function-capabilities_word encryption = refl
select_function-capabilities_word decryption = refl
select_function-capabilities_word raid = refl
select_function-capabilities_word ec = refl
select_function-capabilities_word dedup = refl
select_function-capabilities_word hash = refl
select_function-capabilities_word checksum = refl
select_function-capabilities_word reg_ex = refl
select_function-capabilities_word db_filter = refl
select_function-capabilities_word image_encode = refl
select_function-capabilities_word video_encode = refl
