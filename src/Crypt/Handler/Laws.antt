-- ===== src/Crypt/Handler/Laws.antt =====
-- What the handler of firmware/crypt/main.c answers, command by command.
use nvme_csd.Base.{
  ℕ, ◌+◌, ◌*◌, ◌^◌, ◌≤◌, ◌<◌, ◌≡◌, ◌≢◌, ◌⊎◌, ◌∙◌, ap, pos, List, [], ◌∷◌, ◌++◌, Option, some,
  get_or, length, take, drop, replicate, blit, arith, length-take, length-drop, length-append,
  length-blit, take-blit_end, take-append_add, memcpy-fits, to_int, to_int_small,
}
use nvme_csd.Crypt.Evp.{Evp, IsCbc}
use nvme_csd.Crypt.Aes.{Session, AesResult, aes_encrypt, aes_decrypt}
use nvme_csd.Crypt.Aes.Laws.{aes_crypt-Computes}
use nvme_csd.Crypt.Lba.{LbaResult, lba_encrypt, lba_decrypt}
use nvme_csd.Crypt.Lba.Laws.{map_blocks, BlockIs, Done, lba_crypt-Done}
use nvme_csd.Crypt.Handler.{
  sizeof_completion, nvme_cmd_write, nvme_cmd_read, nvme_cmd_write_zeroes, Round, reply,
  behind_completion, transfer, complete, process, handle,
}

-- The bytes of a completion with status `NVME_SC_INTERNAL`, and of one with no error.
abbrev pub internal_error : List ℕ
internal_error = 0 ∷ 0 ∷ 0 ∷ 0 ∷ 0 ∷ 0 ∷ 0 ∷ 0 ∷ 0 ∷ 0 ∷ 0 ∷ 0 ∷ 0 ∷ 0 ∷ 6 ∷ 0 ∷ []

abbrev pub success : List ℕ
success = replicate sizeof_completion 0

-- The output buffer after the `memset`.
abbrev pub cleared : List ℕ → List ℕ
cleared bout = blit bout 0 success

pub length-cleared : (bout : List ℕ) → 16 ≤ length bout → length (cleared bout) ≡ length bout
length-cleared bout h = length-blit bout 0 success h

pub take-cleared : (bout : List ℕ) → take 16 (cleared bout) ≡ success
take-cleared bout = take-blit_end bout 0 success 16 (omega arith) (omega arith)

module _ (e : Evp) (key iv : List ℕ) where
  -- The round writes exactly `bytes`, all of them from the output buffer of `room` bytes, which
  -- keeps its size.
  abbrev pub Sends : ℕ → Option (Round e key iv) → List ℕ → Type 0
  Sends room r bytes =
      (out : List ℕ) × (k : ℕ) × (s : Session e) × (r ≡ some (reply out k s))
      × (length out ≡ room)
      × (k ≤ room)
      × (take k out ≡ bytes)

  -- What a transfer that reports no error leaves to `write`.
  pub record Transferred (data_size : ℕ) (bout ys : List ℕ) (r : LbaResult e) : Type 0 where
    pub ret : r.ret ≡ pos data_size
    pub room : length r.out ≡ length bout
    pub bytes : take (16 + data_size) r.out ≡ take 16 bout ++ ys

  pub complete_done :
      (data_size : ℕ) (r : LbaResult e)
      → r.ret ≡ pos data_size
      → data_size < 2 ^ 31
      → complete e key iv data_size r ≡ some (reply r.out (16 + data_size) r.session)
  unfolding complete
  complete_done data_size r h small = ground arith

  pub process_done :
      (data_size : ℕ) (bin bout ys : List ℕ) (s : Session e) (r : LbaResult e)
      → 16 + data_size ≤ length bout
      → data_size < 2 ^ 31
      → transfer e key iv data_size bin (cleared bout) s ≡ some r
      → Transferred data_size (cleared bout) ys r
      → Sends (length bout) (process e key iv data_size bin bout s) (success ++ ys)
  unfolding process
  process_done data_size bin bout ys s r h small moved t = (
    r.out,
    16 + data_size,
    r.session,
    rw (memcpy-fits bout 0 success 16 (omega arith) (omega arith), moved, process)
        (complete_done data_size r t.ret small),
    t.room ∙ length-cleared bout (omega arith),
    h,
    t.bytes ∙ ap (λ (x : List ℕ). x ++ ys) (take-cleared bout),
  )

  behind-Done :
      (crypt : List ℕ → Session e → AesResult e) (f : List ℕ → List ℕ) (n : ℕ) (input bout : List ℕ)
      (r : LbaResult e)
      → 16 ≤ length bout
      → Done e crypt f 0 n input (drop 16 bout) r
      → Transferred (512 * n) bout (map_blocks f n input) (record r { out = take 16 bout ++ r.out })
  behind-Done crypt f n input bout r h done =
      let none_before : 512 * n ≡ 0 + 512 * n = omega arith in
      record {
        ret = done.ret ∙ ap pos (omega arith);
        room = omega (
          arith,
          length-append (take 16 bout) r.out,
          length-take 16 bout,
          done.room,
          length-drop 16 bout,
        );
        bytes =
            take-append_add 16 (512 * n) (take 16 bout) r.out (omega (arith, length-take 16 bout))
            ∙ ap (λ k. take 16 bout ++ take k r.out) none_before
            ∙ ap (λ (x : List ℕ). take 16 bout ++ x) done.bytes;
      }

  -- The branches of a transfer of some data.
  pub transfer-encrypt :
      (data_size : ℕ) (bin bout : List ℕ) (s : Session e)
      → (get_or bin 0 0 ≡ nvme_cmd_write) ⊎ (get_or bin 0 0 ≡ nvme_cmd_write_zeroes)
      → data_size ≢ 0
      → transfer e key iv data_size bin bout s
        ≡ behind_completion e key iv bout
            (lba_encrypt e key iv (to_int data_size) (drop 64 bin) (drop 16 bout) s)
  unfolding transfer
  transfer-encrypt data_size bin bout s op h = ground arith

  pub transfer-decrypt :
      (data_size : ℕ) (bin bout : List ℕ) (s : Session e)
      → get_or bin 0 0 ≡ nvme_cmd_read
      → data_size ≢ 0
      → transfer e key iv data_size bin bout s
        ≡ behind_completion e key iv bout
            (lba_decrypt e key iv (to_int data_size) (drop 64 bin) (drop 16 bout) s)
  unfolding transfer
  transfer-decrypt data_size bin bout s op h = ground arith

  -- A read of at least a command's length goes on with the data behind the command.
  pub handle_command :
      (data_size : ℕ) (bin bout : List ℕ) (s : Session e)
      → data_size < 2 ^ 31
      → handle e key iv (pos (64 + data_size)) bin bout s ≡ process e key iv data_size bin bout s
  unfolding handle
  handle_command data_size bin bout s small = ground arith

-- Commands with whole blocks, under the documented behaviour of the cipher.
module _ (e : Evp) (key iv : List ℕ) (enc dec : List ℕ → List ℕ)
    (cbc : IsCbc e key iv enc dec) where
  pub encrypt_block : BlockIs e (aes_encrypt e key iv) enc
  unfolding aes_encrypt
  encrypt_block x s h = ground (
    arith,
    aes_crypt-Computes e e.encrypt key iv enc cbc.memory cbc.encrypts x s (omega arith),
    cbc.length-enc x (omega arith),
  )

  pub decrypt_block : BlockIs e (aes_decrypt e key iv) dec
  unfolding aes_decrypt
  decrypt_block x s h = ground (
    arith,
    aes_crypt-Computes e e.decrypt key iv dec cbc.memory cbc.decrypts x s (omega arith),
    cbc.length-dec x (omega arith),
  )

  module _ (n : ℕ) (bin bout : List ℕ) (s : Session e) where
    module _ (some_data : 0 < n) (small : 512 * n < 2 ^ 31) (hi : 64 + 512 * n ≤ length bin)
        (ho : 16 + 512 * n ≤ length bout) where
      -- The transfer of `n` blocks by the opcodes that encrypt, and by the one that decrypts.
      pub transfer_write :
          (get_or bin 0 0 ≡ nvme_cmd_write) ⊎ (get_or bin 0 0 ≡ nvme_cmd_write_zeroes)
          → (r : LbaResult e) × (transfer e key iv (512 * n) bin bout s ≡ some r)
            × Transferred e key iv (512 * n) bout (map_blocks enc n (drop 64 bin)) r
      unfolding behind_completion lba_encrypt
      transfer_write op =
          let (r, runs, done) =
            lba_crypt-Done e (aes_encrypt e key iv) enc encrypt_block n (drop 64 bin) (drop 16 bout)
              s (omega (arith, length-drop 64 bin)) (omega (arith, length-drop 16 bout)) in
          (
            record r { out = take 16 bout ++ r.out },
            transfer-encrypt e key iv (512 * n) bin bout s op (omega arith)
                ∙ rw (to_int_small (512 * n) small, runs),
            behind-Done e key iv (aes_encrypt e key iv) enc n (drop 64 bin) bout r (omega arith)
                done,
          )

      pub transfer_read :
          get_or bin 0 0 ≡ nvme_cmd_read
          → (r : LbaResult e) × (transfer e key iv (512 * n) bin bout s ≡ some r)
            × Transferred e key iv (512 * n) bout (map_blocks dec n (drop 64 bin)) r
      unfolding behind_completion lba_decrypt
      transfer_read op =
          let (r, runs, done) =
            lba_crypt-Done e (aes_decrypt e key iv) dec decrypt_block n (drop 64 bin) (drop 16 bout)
              s (omega (arith, length-drop 64 bin)) (omega (arith, length-drop 16 bout)) in
          (
            record r { out = take 16 bout ++ r.out },
            transfer-decrypt e key iv (512 * n) bin bout s op (omega arith)
                ∙ rw (to_int_small (512 * n) small, runs),
            behind-Done e key iv (aes_decrypt e key iv) dec n (drop 64 bin) bout r (omega arith)
                done,
          )
