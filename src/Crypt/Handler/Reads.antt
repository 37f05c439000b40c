-- ===== src/Crypt/Handler/Reads.antt =====
-- Which reads end the loop of firmware/crypt/main.c, and which are taken for commands.
use nvme_csd.Base.{
  ℕ, zero, suc, ◌+◌, ◌-◌, ◌*◌, ◌/◌, ◌%◌, ◌^◌, ◌≤◌, ◌<◌, ◌≡◌, ◌≢◌, inl, inr, refl, ◌∙◌, ap, subst,
  pos, negsuc, to_int, low_nine_bits, List, ◌++◌, Option, some, get_or, length, drop, arith,
  length-take, length-drop, ◌==◌, if◌then◌else◌,
}
use native.Mathlib.Decide.{ℕ_discrete}
use nvme_csd.Crypt.Evp.{Evp, IsCbc}
use nvme_csd.Crypt.Aes.{Session}
use nvme_csd.Crypt.Lba.Laws.{length-map_blocks}
use nvme_csd.Crypt.Handler.{
  end_of_file, partial_read, read_error, nvme_cmd_write, nvme_cmd_read, nvme_cmd_write_zeroes,
  Round, stop, reply, process, handle,
}
use nvme_csd.Crypt.Handler.Laws.{internal_error, Sends}
use nvme_csd.Crypt.Handler.Replies.{handle_write, handle_read}
use nvme_csd.Crypt.Handler.Errors.{
  IsCrypt, process_refused, handle_unaligned, handle_no_data, handle_other,
}

IsCrypt-dec : (bin : List ℕ) → Dec (IsCrypt bin)
IsCrypt-dec bin = elim (ℕ_discrete (get_or bin 0 0) nvme_cmd_read) [
  | yes r ↦ yes (inl r)
  | no nr ↦ elim (ℕ_discrete (get_or bin 0 0) nvme_cmd_write) [
    | yes w ↦ yes (inr (inl w))
    | no nw ↦ elim (ℕ_discrete (get_or bin 0 0) nvme_cmd_write_zeroes) [
      | yes z ↦ yes (inr (inr z))
      | no nz ↦ no (λ c. ground arith)
    ]
  ]
]

-- The length of the data that is not there is no multiple of 512.
low_bits_underflow : (n : ℕ) → 8 ≤ n → n < 64 → low_nine_bits (to_int (2 ^ 64 - (64 - n))) ≢ 0
unfolding to_int
low_bits_underflow n lo hi = ground arith

module _ (e : Evp) (key iv : List ℕ) where
  -- The length of the smallest read that does not end the loop is that of a pointer.
  pub handle_short :
      (n : ℕ) (bin bout : List ℕ) (s : Session e)
      → n < 8
      → handle e key iv (pos n) bin bout s
        ≡ some (stop (if n == 0 then end_of_file else partial_read))
  unfolding handle
  handle_short n bin bout s h = ground arith

  -- A failed read ends the loop, although it is compared with a size as an unsigned number first.
  pub handle_failed :
      (n : ℕ) (bin bout : List ℕ) (s : Session e)
      → n < 2 ^ 63
      → handle e key iv (negsuc n) bin bout s ≡ some (stop read_error)
  unfolding handle
  handle_failed n bin bout s h = ground arith

  handle_underflow :
      (n : ℕ) (bin bout : List ℕ) (s : Session e)
      → 8 ≤ n
      → n < 64
      → handle e key iv (pos n) bin bout s ≡ process e key iv (2 ^ 64 - (64 - n)) bin bout s
  unfolding handle
  handle_underflow n bin bout s lo hi =
      let size : (n % 2 ^ 64 + 2 ^ 64 - 64) % 2 ^ 64 ≡ 2 ^ 64 - (64 - n) = omega arith in
      ground arith

  -- A read of 8 to 47 bytes whose first byte is an opcode that is encrypted or decrypted, with room
  -- for a completion in the output buffer, does not end the loop: the length of its data wraps, and
  -- `write` is called with an internal error and the length 2 ^ 64 - (48 - n).
  pub handle_truncated :
      (n : ℕ) (bin bout : List ℕ) (s : Session e)
      → IsCrypt bin
      → 8 ≤ n
      → n < 48
      → 16 ≤ length bout
      → handle e key iv (pos n) bin bout s
        ≡ some (reply (internal_error ++ drop 16 bout) (2 ^ 64 - (48 - n)) s)
  handle_truncated n bin bout s op lo hi ho =
      handle_underflow n bin bout s lo (omega arith)
      ∙ process_refused e key iv (2 ^ 64 - (64 - n)) bin bout s op (omega arith)
          (low_bits_underflow n lo (omega arith)) ho
      ∙ ap (λ k. some (reply (internal_error ++ drop 16 bout) k s)) (omega arith)

  -- The round was answered by `m` bytes of the output buffer, which keeps its size.
  abbrev pub Answers : ℕ → ℕ → Option (Round e key iv) → Type 0
  Answers room m r =
      (out : List ℕ) × (s : Session e) × (r ≡ some (reply out m s))
      × (length out ≡ room)
      × (m ≤ room)

  Sends-Answers :
      {room m : ℕ} {r : Option (Round e key iv)} {bytes : List ℕ}
      → Sends e key iv room r bytes
      → length bytes ≡ m
      → Answers room m r
  Sends-Answers {m = m} (out, k, s, answered, size, inside, sent) h =
      let whole : k ≡ m = omega (arith, ap (length {A = ℕ}) sent, length-take k out) in
      (out, s, answered ∙ ap (λ j. some (reply out j s)) whole, size, omega arith)

  module _ {enc dec : List ℕ → List ℕ} (cbc : IsCbc e key iv enc dec) (bin bout : List ℕ)
      (s : Session e) (ho : length bin ≤ length bout) where
    abbrev IsAnswered : ℕ → Type 0
    IsAnswered m = Answers (length bout) (16 + m) (handle e key iv (pos (64 + m)) bin bout s)

    answer_blocks :
        (n : ℕ)
        → IsCrypt bin
        → 0 < n
        → 512 * n < 2 ^ 31
        → 64 + 512 * n ≤ length bin
        → IsAnswered (512 * n)
    answer_blocks n (inl op) some_data small hi =
        Sends-Answers {m = 16 + 512 * n}
          (handle_read e key iv enc dec cbc n some_data small bin bout s op hi ho)
          (omega (
            arith,
            length-map_blocks dec (λ x h. cbc.length-dec x (omega arith) ∙ h) n (drop 64 bin)
                (omega (arith, length-drop 64 bin)),
          ))
    answer_blocks n (inr op) some_data small hi =
        Sends-Answers {m = 16 + 512 * n}
          (handle_write e key iv enc dec cbc n some_data small bin bout s op hi ho)
          (omega (
            arith,
            length-map_blocks enc (λ x h. cbc.length-enc x (omega arith) ∙ h) n (drop 64 bin)
                (omega (arith, length-drop 64 bin)),
          ))

    answer_crypt :
        (data_size : ℕ)
        → IsCrypt bin
        → 0 < data_size
        → data_size < 2 ^ 31
        → 64 + data_size ≤ length bin
        → IsAnswered data_size
    answer_crypt m op some_data small hi = elim (ℕ_discrete (m % 512) 0) [
      | yes even ↦
          let whole : 512 * (m / 512) ≡ m = omega arith in
          subst IsAnswered whole
            (answer_blocks (m / 512) op (omega arith) (omega arith) (omega arith))
      | no odd ↦
          Sends-Answers (handle_unaligned e key iv m bin bout s op small odd (omega arith))
            (omega (arith, length-take m (drop 16 bout), length-drop 16 bout))
    ]

    answer_other :
        (data_size : ℕ)
        → ¬ (IsCrypt bin)
        → 0 < data_size
        → data_size < 2 ^ 31
        → 64 + data_size ≤ length bin
        → IsAnswered data_size
    answer_other m op some_data small hi =
        Sends-Answers (handle_other e key iv m bin bout s op some_data small hi (omega arith))
          (omega (arith, length-take m (drop 64 bin), length-drop 64 bin))

  -- Under the documented behaviour of the cipher every command that was read in full, with
  -- whatever opcode and data below 2 ^ 31 bytes, into an input buffer that is no longer than the
  -- output buffer, is answered by a completion and as many bytes as its data has; no access is out
  -- of range, and `write` is called inside the output buffer, which keeps its size.
  pub handle_total :
      {enc dec : List ℕ → List ℕ}
      → IsCbc e key iv enc dec
      → (data_size : ℕ) (bin bout : List ℕ) (s : Session e) → data_size < 2 ^ 31
      → 64 + data_size ≤ length bin
      → length bin ≤ length bout
      → Answers (length bout) (16 + data_size) (handle e key iv (pos (64 + data_size)) bin bout s)
  handle_total cbc zero bin bout s small hi ho =
      Sends-Answers (handle_no_data e key iv bin bout s (omega arith)) refl
  handle_total cbc (suc d) bin bout s small hi ho = elim (IsCrypt-dec bin) [
    | yes op ↦ answer_crypt cbc bin bout s ho (suc d) op (omega arith) small hi
    | no op ↦ answer_other cbc bin bout s ho (suc d) op (omega arith) small hi
  ]
