-- ===== src/Cs/Utils/Reads.antt =====
-- Where the printing of host/snia_cs_api/cs_utils.c stays inside the memory that it is given.
use nvme_csd.Base.{
  ℕ, zero, suc, ◌+◌, ◌*◌, ◌≤◌, ◌<◌, ◌≡◌, refl, arith, List, [], ◌∷◌, ◌++◌, Option, none, some,
  length, drop, field, le→leb, not_le→leb,
}
use native.Mathlib.Decide.{dec_lt}
use nvme_csd.Cs.Types.{num_cses}
use nvme_csd.Cs.Utils.{
  flag, hw_version, sw_version, unique_name, num_builtin, max_requests_per_batch,
  max_function_parameters, max_instances, vendor_id, device_id, friendly_name, cfm_min_mb,
  fdm_min_mb, fdm_is_device_managed, fdm_is_host_visible, batch_requests_support, streams_support,
  number_of_cses, cse_number, ◌>>=◌, Line, read_field, read_text, print_cse_properties, print_cses,
  print_csx_properties,
}

pub read_field_lem :
    (memory : List ℕ) (off k : ℕ)
    → off + k ≤ length memory
    → read_field memory off k ≡ some (field off k memory)
unfolding read_field
read_field_lem memory off k h = rw (le→leb (off + k) (length memory) h)

read_field-none :
    (memory : List ℕ) (off k : ℕ) → length memory < off + k → read_field memory off k ≡ none
unfolding read_field
read_field-none memory off k h = rw (not_le→leb (off + k) (length memory) h)

-- The lines of one CSE whose name is `text`, and of `n` of them from number `i` on.
abbrev pub cse_lines : List ℕ → ℕ → List ℕ → List Line
cse_lines memory off text =
    hw_version (field off 2 memory)
    ∷ sw_version (field (off + 2) 2 memory)
    ∷ unique_name text
    ∷ num_builtin (field (off + 36) 2 memory)
    ∷ max_requests_per_batch (field (off + 38) 4 memory)
    ∷ max_function_parameters (field (off + 42) 4 memory)
    ∷ max_instances (field (off + 46) 4 memory)
    ∷ []

abbrev pub cses_lines : List ℕ → (ℕ → List ℕ) → ℕ → ℕ → List Line
cses_lines memory names i zero = []
cses_lines memory names i (suc n) =
    cse_number i ∷ cse_lines memory (58 + 50 * i) (names i) ++ cses_lines memory names (i + 1) n

-- The lines of a device whose friendly name is `text`.
abbrev pub csx_lines : List ℕ → List ℕ → (ℕ → List ℕ) → List Line
csx_lines memory text names =
    hw_version (field 0 2 memory)
    ∷ sw_version (field 2 2 memory)
    ∷ vendor_id (field 4 2 memory)
    ∷ device_id (field 6 2 memory)
    ∷ friendly_name text
    ∷ cfm_min_mb (field 40 4 memory)
    ∷ fdm_min_mb (field 44 4 memory)
    ∷ fdm_is_device_managed (flag (field 48 8 memory) 0)
    ∷ fdm_is_host_visible (flag (field 48 8 memory) 1)
    ∷ batch_requests_support (flag (field 48 8 memory) 2)
    ∷ streams_support (flag (field 48 8 memory) 3)
    ∷ number_of_cses (num_cses memory)
    ∷ cses_lines memory names 0 (num_cses memory)

pub print_cse_fits :
    (memory : List ℕ) (off : ℕ) (text : List ℕ)
    → off + 50 ≤ length memory
    → read_text (drop (off + 4) memory) ≡ some text
    → print_cse_properties memory off ≡ some (cse_lines memory off text)
unfolding print_cse_properties
print_cse_fits memory off text h named =
    rw
      (
        read_field_lem memory off 2 (omega arith),
        read_field_lem memory (off + 2) 2 (omega arith),
        named,
        read_field_lem memory (off + 36) 2 (omega arith),
        read_field_lem memory (off + 38) 4 (omega arith),
        read_field_lem memory (off + 42) 4 (omega arith),
        read_field_lem memory (off + 46) 4 (omega arith),
      )
      refl

bind-none :
    {A B : Type 0} (o : Option A) (f : A → Option B) → ((a : A) → f a ≡ none) → (o >>= f) ≡ none
bind-none none f h = refl
bind-none (some a) f h = h a

print_cse_properties-none :
    (memory : List ℕ) (off : ℕ) → length memory < off + 50 → print_cse_properties memory off ≡ none
unfolding print_cse_properties
print_cse_properties-none memory off h = bind-none (read_field memory off 2) _ (λ hw.
    bind-none (read_field memory (off + 2) 2) _ (λ sw.
      bind-none (read_text (drop (off + 4) memory)) _ (λ name.
        bind-none (read_field memory (off + 36) 2) _ (λ b.
          bind-none (read_field memory (off + 38) 4) _ (λ r.
            bind-none (read_field memory (off + 42) 4) _
              (λ p. rw (read_field-none memory (off + 46) 4 (omega arith)) refl))))))

-- The names of the CSEs from number `i` on, `n` of them.
abbrev pub AreNamed : List ℕ → (ℕ → List ℕ) → ℕ → ℕ → Type 0
AreNamed memory names i zero = Unit
AreNamed memory names i (suc n) =
    (read_text (drop (58 + 50 * i + 4) memory) ≡ some (names i)) × AreNamed memory names (i + 1) n

print_cses_fits :
    (memory : List ℕ) (names : ℕ → List ℕ) (i n : ℕ)
    → 58 + 50 * (i + n) ≤ length memory
    → AreNamed memory names i n
    → print_cses memory i n ≡ some (cses_lines memory names i n)
unfolding print_cses
print_cses_fits memory names i zero h named = refl
print_cses_fits memory names i (suc n) h named =
    rw
      (
        print_cse_fits memory (58 + 50 * i) (names i) (omega arith) named.0,
        print_cses_fits memory names (i + 1) n (omega arith) named.1,
      )
      refl

print_cses-none :
    (memory : List ℕ) (i n : ℕ)
    → length memory < 58 + 50 * (i + suc n)
    → print_cses memory i (suc n) ≡ none
unfolding print_cses
print_cses-none memory i zero h =
    rw (print_cse_properties-none memory (58 + 50 * i) (omega arith)) refl
print_cses-none memory i (suc n) h =
    bind-none (print_cse_properties memory (58 + 50 * i)) _
      (λ lines. rw (print_cses-none memory (i + 1) n (omega arith)) refl)

print_cses_beyond :
    (memory : List ℕ) (n : ℕ) → 0 < n → length memory < 58 + 50 * n → print_cses memory 0 n ≡ none
print_cses_beyond memory zero some_cses h = absurd (omega arith)
print_cses_beyond memory (suc n) some_cses h = print_cses-none memory 0 n (omega arith)

-- Where the memory holds as many CSEs as the structure counts, and each name ends in it, every value
-- printed is the field of the structure, of every CSE in its order.
pub print_csx_properties_lem :
    (memory text : List ℕ) (names : ℕ → List ℕ)
    → 58 + 50 * num_cses memory ≤ length memory
    → read_text (drop 8 memory) ≡ some text
    → AreNamed memory names 0 (num_cses memory)
    → print_csx_properties memory ≡ some (csx_lines memory text names)
unfolding print_csx_properties
print_csx_properties_lem memory text names h named all_named =
    rw
      (
        read_field_lem memory 0 2 (omega arith),
        read_field_lem memory 2 2 (omega arith),
        read_field_lem memory 4 2 (omega arith),
        read_field_lem memory 6 2 (omega arith),
        named,
        read_field_lem memory 40 4 (omega arith),
        read_field_lem memory 44 4 (omega arith),
        read_field_lem memory 48 8 (omega arith),
        read_field_lem memory 56 2 (omega arith),
        print_cses_fits memory names 0 (num_cses memory) (omega arith) all_named,
      )
      refl

-- Where the structure counts a CSE that the memory does not hold, the printing reads beyond it.
pub print_csx_properties_overflow :
    (memory : List ℕ)
    → 0 < num_cses memory
    → length memory < 58 + 50 * num_cses memory
    → print_csx_properties memory ≡ none
unfolding print_csx_properties
print_csx_properties_overflow memory some_cses h = bind-none (read_field memory 0 2) _ (λ a.
    bind-none (read_field memory 2 2) _ (λ b. bind-none (read_field memory 4 2) _ (λ c.
      bind-none (read_field memory 6 2) _ (λ d. bind-none (read_text (drop 8 memory)) _ (λ n.
        bind-none (read_field memory 40 4) _ (λ f. bind-none (read_field memory 44 4) _ (λ g.
          bind-none (read_field memory 48 8) _ (λ w. elim (dec_lt (length memory) 58) [
            | yes short ↦ rw (read_field-none memory 56 2 (omega arith)) refl
            | no enough ↦
                rw
                  (
                    read_field_lem memory 56 2 (omega arith),
                    print_cses_beyond memory (num_cses memory) some_cses h,
                  )
                  refl
          ]))))))))
