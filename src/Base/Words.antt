-- ===== src/Base/Words.antt =====
-- Byte buffers: `memcpy` into a buffer at an offset, and little-endian words.
use Prim.Native.Nat.{ℕ, zero, suc, ◌+◌, ◌-◌, ◌*◌, ◌/◌, ◌%◌, ◌≤◌, ◌<◌, ◌^◌}
use mathlib.Core.Logic.{◌≢◌}
use mathlib.Core.Path.{◌≡◌, refl, ap, ◌∙◌}
use mathlib.Core.Bool.{◌&&◌}
use mathlib.Core.Option.{Option, none, some}
use mathlib.Core.List.{List, [], ◌∷◌, ◌++◌}
use native.Mathlib.Omega.{arith}
use nvme_csd.Base.Tests.{◌==◌, leb, le→leb, if◌then◌else◌}
use nvme_csd.Base.Lists.{
  drop-append_le, drop-append_ge, drop-drop, take-drop-take, take-append_le, length, take, drop,
  length-append, length-take, length-drop, take-append, drop-append, take_add,
}

-- The buffer with `src` written from offset `off` on; it keeps its length where `src` fits.
abbrev pub blit : List ℕ → ℕ → List ℕ → List ℕ
blit dst off src = take off dst ++ (src ++ drop (off + length src) dst)

-- `memcpy(&dst[off], src, n)`. `none` is undefined behaviour: an access outside either object.
abbrev pub memcpy : List ℕ → ℕ → List ℕ → ℕ → Option (List ℕ)
memcpy dst off src n =
    if leb (off + n) (length dst) && leb n (length src)
    then some (blit dst off (take n src))
    else none

-- The value of bytes, the lowest first.
abbrev pub le_value : List ℕ → ℕ
le_value [] = 0
le_value (b ∷ bs) = b + 256 * le_value bs

-- The `k` bytes of a word, the lowest first.
abbrev pub le_bytes : ℕ → ℕ → List ℕ
le_bytes zero w = []
le_bytes (suc k) w = (w % 256) ∷ le_bytes k (w / 256)

-- The field of `k` bytes at offset `off`, as a word.
abbrev pub field : ℕ → ℕ → List ℕ → ℕ
field off k bytes = le_value (take k (drop off bytes))

pub length-le_bytes : (k w : ℕ) → length (le_bytes k w) ≡ k
length-le_bytes zero w = refl
length-le_bytes (suc k) w = ap suc (length-le_bytes k (w / 256))

pub length-blit :
    (dst : List ℕ) (off : ℕ) (src : List ℕ)
    → off + length src ≤ length dst
    → length (blit dst off src) ≡ length dst
length-blit dst off src h = omega (
  arith,
  length-append (take off dst) (src ++ drop (off + length src) dst),
  length-append src (drop (off + length src) dst),
  length-take off dst,
  length-drop (off + length src) dst,
)

-- What precedes the written bytes stays.
pub take-blit :
    (dst : List ℕ) (off : ℕ) (src : List ℕ)
    → off ≤ length dst
    → take off (blit dst off src) ≡ take off dst
take-blit dst off src h =
    take-append off (take off dst) (src ++ drop (off + length src) dst)
      (omega (arith, length-take off dst))

-- The prefix up to the end of the written bytes.
pub take-blit_end :
    (dst : List ℕ) (off : ℕ) (src : List ℕ) (k : ℕ)
    → k ≡ off + length src
    → off ≤ length dst
    → take k (blit dst off src) ≡ take off dst ++ src
take-blit_end dst off src k e h =
    take_add off (length src) k (blit dst off src) e
    ∙ ap₂' (take-blit dst off src h) (
        ap (take (length src)) (drop-blit dst off src h)
        ∙ take-append (length src) src (drop (off + length src) dst) refl)
  where
    ap₂' : {a b c d : List ℕ} → a ≡ b → c ≡ d → a ++ c ≡ b ++ d
    ap₂' p q = λ i. p i ++ q i

    drop-blit :
        (dst : List ℕ) (off : ℕ) (src : List ℕ)
        → off ≤ length dst
        → drop off (blit dst off src) ≡ src ++ drop (off + length src) dst
    drop-blit dst off src h =
        drop-append off (take off dst) (src ++ drop (off + length src) dst)
          (omega (arith, length-take off dst))

-- A copy that fits is no fault.
pub memcpy-fits :
    (dst : List ℕ) (off : ℕ) (src : List ℕ) (n : ℕ)
    → off + n ≤ length dst
    → n ≤ length src
    → memcpy dst off src n ≡ some (blit dst off (take n src))
memcpy-fits dst off src n h k = rw (le→leb (off + n) (length dst) h, le→leb n (length src) k)

-- `memcpy(local, src, n)` into an array of `room` bytes that is not initialised: the bytes copied.
abbrev pub memcpy_local : ℕ → List ℕ → ℕ → Option (List ℕ)
memcpy_local room src n = if leb n room && leb n (length src) then some (take n src) else none

-- A word reads back from its bytes.
pub le_value-le_bytes_eight : (w : ℕ) → w < 2 ^ 64 → le_value (le_bytes 8 w) ≡ w
le_value-le_bytes_eight w h = omega arith

pub le_value-le_bytes_four : (w : ℕ) → w < 2 ^ 32 → le_value (le_bytes 4 w) ≡ w
le_value-le_bytes_four w h = omega arith

-- The field of a buffer over whose start `n` bytes were copied, where it lies in these.
pub field-blit :
    (off k n : ℕ) (dst src : List ℕ)
    → off + k ≤ n
    → n ≤ length src
    → field off k (blit dst 0 (take n src)) ≡ field off k src
field-blit off k n dst src h hs =
    let copied = take n src in
    let size : length copied ≡ n = omega (arith, length-take n src) in
    let behind = drop (0 + length copied) dst in
    ap (λ (l : List ℕ). le_value (take k l)) (drop-append_le off copied behind (omega arith))
    ∙ ap le_value (
        take-append_le k (drop off copied) behind (omega (arith, length-drop off copied))
        ∙ take-drop-take k off n src h)

-- What lies beyond the bytes written at the start of a buffer.
pub drop-blit_start :
    (dst src : List ℕ) (n : ℕ)
    → length src ≤ n
    → n ≤ length dst
    → drop n (blit dst 0 src) ≡ drop n dst
drop-blit_start dst src n h k =
    let rest = drop (0 + length src) dst in
    drop-append_ge n src rest h ∙ drop-drop (n - length src) (0 + length src) n dst (omega arith)

-- The text that stands in a field, up to its first NUL.
unfoldable pub c_string : List ℕ → List ℕ
c_string [] = []
c_string (b ∷ bytes) = if b == 0 then [] else b ∷ c_string bytes

-- A C string has no NUL in it.
abbrev pub IsText : List ℕ → Type 0
IsText [] = Unit
IsText (b ∷ bytes) = (b ≢ 0) × IsText bytes
