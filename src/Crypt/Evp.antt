-- ===== src/Crypt/Evp.antt =====
-- The OpenSSL EVP interface that firmware/crypt/aes_cbc.c calls, as a parameter of the model, and
-- the documented behaviour of AES-256-CBC without padding that the theorems rely on.
use nvme_csd.Base.{ℕ, ◌%◌, ◌≡◌, ℤ, pos, List, [], Option, some, length}

-- The calls of one direction: `EVP_EncryptInit_ex` with `EVP_aes_256_cbc()`, `EVP_EncryptUpdate`
-- and `EVP_EncryptFinal_ex`, or the three of decryption. `update` and `final` return their code,
-- the bytes that they write (`*outl` is their number) and the new content of the context.
pub record Direction (Ctx : Type 0) : Type 0 where
  pub init : Ctx → List ℕ → List ℕ → ℤ × Ctx
  pub update : Ctx → List ℕ → ℤ × List ℕ × Ctx
  pub final : Ctx → ℤ × List ℕ × Ctx

-- `new` is `EVP_CIPHER_CTX_new`, `none` for NULL; `Lib` is the state of the library.
pub record Evp : Type 1 where
  pub Ctx : Type 0
  pub Lib : Type 0
  pub new : Lib → Option Ctx × Lib
  pub free : Ctx → Lib → Lib
  pub set_padding : Ctx → ℕ → Ctx
  pub encrypt : Direction Ctx
  pub decrypt : Direction Ctx

module _ (e : Evp) where
  -- A context can always be made.
  abbrev pub HasMemory : Type 0
  HasMemory = (l : e.Lib) → (c : e.Ctx) × (l' : e.Lib) × (e.new l ≡ (some c, l'))

  -- Without padding, whole blocks of 16 bytes are all written by `update`, as `f` says, and
  -- `final` adds nothing.
  abbrev pub Computes : Direction e.Ctx → List ℕ → List ℕ → (List ℕ → List ℕ) → Type 0
  Computes d key iv f =
      (c : e.Ctx) (x : List ℕ)
      → length x % 16 ≡ 0
      → (c₁ c₂ c₃ : e.Ctx) × (d.init c key iv ≡ (pos 1, c₁))
        × (d.update (e.set_padding c₁ 0) x ≡ (pos 1, f x, c₂))
        × (d.final c₂ ≡ (pos 1, [], c₃))

  -- AES-256-CBC at one key and one initialisation vector: `enc` keeps the length of whole blocks,
  -- and `dec` inverts it on them.
  pub record IsCbc (key iv : List ℕ) (enc dec : List ℕ → List ℕ) : Type 0 where
    pub memory : HasMemory
    pub encrypts : Computes e.encrypt key iv enc
    pub decrypts : Computes e.decrypt key iv dec
    pub length-enc : (x : List ℕ) → length x % 16 ≡ 0 → length (enc x) ≡ length x
    pub length-dec : (x : List ℕ) → length x % 16 ≡ 0 → length (dec x) ≡ length x
    pub dec-enc : (x : List ℕ) → length x % 16 ≡ 0 → dec (enc x) ≡ x
