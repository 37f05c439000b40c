-- ===== src/Crypt/Handler/Errors.antt =====
-- Replies of firmware/crypt/main.c that report an error, and reads that are no command.
use nvme_csd.Base.{
  ℕ, ◌+◌, ◌%◌, ◌^◌, ◌≤◌, ◌<◌, ◌≡◌, ◌≢◌, ◌⊎◌, inl, inr, refl, ◌∙◌, ap, pos, negsuc, is_negative,
  to_u64, ◌||◌, not, true, to_int, low_nine_bits, to_int_small, List, [], ◌++◌, some, get_or,
  length, take, drop, arith, le_bytes, memcpy-fits, blit, length-append, length-take, length-drop,
  take-append, take-append_add, ◌==◌, ne→==,
}
use nvme_csd.Crypt.Evp.{Evp}
use nvme_csd.Crypt.Aes.{Session, aes_encrypt, aes_decrypt}
use nvme_csd.Crypt.Lba.{LbaResult, lba_encrypt, lba_decrypt}
use nvme_csd.Crypt.Lba.Laws.{lba_crypt_unaligned}
use nvme_csd.Crypt.Handler.{
  nvme_cmd_write, nvme_cmd_read, nvme_cmd_write_zeroes, reply, transfer, complete, process, handle,
  behind_completion,
}
use nvme_csd.Crypt.Handler.Laws.{
  internal_error, success, cleared, length-cleared, process_done, Sends, handle_command,
  transfer-encrypt, transfer-decrypt,
}

-- The opcodes whose data is encrypted or decrypted.
abbrev pub IsCrypt : List ℕ → Type 0
IsCrypt bin =
    (get_or bin 0 0 ≡ nvme_cmd_read)
    ⊎ ((get_or bin 0 0 ≡ nvme_cmd_write) ⊎ (get_or bin 0 0 ≡ nvme_cmd_write_zeroes))

module _ (e : Evp) (key iv : List ℕ) where
  -- A length that is not a multiple of 512 is refused, and nothing is written.
  transfer_refused :
      (data_size : ℕ) (bin bout : List ℕ) (s : Session e)
      → IsCrypt bin
      → data_size ≢ 0
      → low_nine_bits (to_int data_size) ≢ 0
      → transfer e key iv data_size bin bout s
        ≡ some (record { ret = negsuc 0; out = take 16 bout ++ drop 16 bout; session = s })
  unfolding behind_completion lba_encrypt lba_decrypt
  transfer_refused data_size bin bout s (inl op) h low =
      transfer-decrypt e key iv data_size bin bout s op h
      ∙ rw (
          lba_crypt_unaligned e (aes_decrypt e key iv) (to_int data_size) (drop 64 bin)
            (drop 16 bout) s low)
  transfer_refused data_size bin bout s (inr op) h low =
      transfer-encrypt e key iv data_size bin bout s op h
      ∙ rw (
          lba_crypt_unaligned e (aes_encrypt e key iv) (to_int data_size) (drop 64 bin)
            (drop 16 bout) s low)

  -- A result other than the length of the data is marked in the completion.
  complete_failed :
      (data_size : ℕ) (r : LbaResult e) (rest : List ℕ)
      → (r.ret ≡ negsuc 0) ⊎ ((r.ret ≡ pos 0) × (data_size ≢ 0))
      → r.out ≡ success ++ rest
      → complete e key iv data_size r
        ≡ some (reply (internal_error ++ rest) ((16 + data_size) % 2 ^ 64) r.session)
  unfolding complete
  complete_failed data_size r rest failed out =
      let test : (is_negative r.ret || not (to_u64 r.ret == data_size)) ≡ true = ground arith in
      rw (
        test,
        complete,
        out,
        memcpy-fits (success ++ rest) 14 (le_bytes 2 6) 2 (omega arith) (omega arith),
      )

  pub process_refused :
      (data_size : ℕ) (bin bout : List ℕ) (s : Session e)
      → IsCrypt bin
      → data_size ≢ 0
      → low_nine_bits (to_int data_size) ≢ 0
      → 16 ≤ length bout
      → process e key iv data_size bin bout s
        ≡ some (reply (internal_error ++ drop 16 bout) ((16 + data_size) % 2 ^ 64) s)
  unfolding process
  process_refused data_size bin bout s op h low ho =
      rw
        (
          memcpy-fits bout 0 success 16 (omega arith) (omega arith),
          transfer_refused data_size bin (cleared bout) s op h low,
          process,
        )
        (complete_failed data_size _ (drop 16 bout) (inl refl) refl)

  -- A read or write whose data, below 2 ^ 31 bytes and with room for it in the output buffer, is not
  -- a whole number of blocks completes with `NVME_SC_INTERNAL`, followed by as many bytes as the
  -- data has, which are those that the output buffer held before.
  pub handle_unaligned :
      (data_size : ℕ) (bin bout : List ℕ) (s : Session e)
      → IsCrypt bin
      → data_size < 2 ^ 31
      → data_size % 512 ≢ 0
      → 16 + data_size ≤ length bout
      → Sends e key iv
          (length bout)
          (handle e key iv (pos (64 + data_size)) bin bout s)
          (internal_error ++ take data_size (drop 16 bout))
  handle_unaligned data_size bin bout s op small odd ho = (
    internal_error ++ drop 16 bout,
    16 + data_size,
    s,
    rw (handle_command e key iv data_size bin bout s small) (
        process_refused data_size bin bout s op (omega arith)
          (rw (to_int_small data_size small) odd) (omega arith)
        ∙ ap (λ k. some (reply (internal_error ++ drop 16 bout) k s)) (omega arith)),
    omega (arith, length-drop 16 bout),
    ho,
    take-append_add 16 data_size internal_error (drop 16 bout) refl,
  )

  -- A command without data completes with no error.
  pub handle_no_data :
      (bin bout : List ℕ) (s : Session e)
      → 16 ≤ length bout
      → Sends e key iv (length bout) (handle e key iv (pos 64) bin bout s) success
  handle_no_data bin bout s ho =
      let r : LbaResult e = record { ret = pos 0; out = cleared bout; session = s } in
      let moved : transfer e key iv 0 bin (cleared bout) s ≡ some r = unfold transfer in refl in
      rw (handle_command e key iv 0 bin bout s (omega arith)) (
        process_done e key iv 0 bin bout [] s r (omega arith) (omega arith) moved
          (record { ret = refl; room = refl; bytes = refl }))

  transfer_copied :
      (data_size : ℕ) (bin bout : List ℕ) (s : Session e)
      → ¬ (IsCrypt bin)
      → data_size ≢ 0
      → data_size ≤ length (drop 64 bin)
      → 16 + data_size ≤ length bout
      → transfer e key iv data_size bin bout s
        ≡ some
            (record { ret = pos 0; out = blit bout 16 (take data_size (drop 64 bin)); session = s })
  unfolding transfer
  transfer_copied data_size bin bout s op h hi ho = rw (
    ne→== data_size 0 h,
    ne→== (get_or bin 0 0) nvme_cmd_read (λ x. op (inl x)),
    ne→== (get_or bin 0 0) nvme_cmd_write (λ x. op (inr (inl x))),
    ne→== (get_or bin 0 0) nvme_cmd_write_zeroes (λ x. op (inr (inr x))),
    memcpy-fits bout 16 (drop 64 bin) data_size ho hi,
    transfer,
  )

  -- Every other command that carries data, below 2 ^ 31 bytes, inside the input buffer and with room
  -- for it in the output buffer, is copied through, and completes with `NVME_SC_INTERNAL` all the
  -- same.
  pub handle_other :
      (data_size : ℕ) (bin bout : List ℕ) (s : Session e)
      → ¬ (IsCrypt bin)
      → 0 < data_size
      → data_size < 2 ^ 31
      → 64 + data_size ≤ length bin
      → 16 + data_size ≤ length bout
      → Sends e key iv
          (length bout)
          (handle e key iv (pos (64 + data_size)) bin bout s)
          (internal_error ++ take data_size (drop 64 bin))
  handle_other data_size bin bout s op some_data small hi ho =
      let bytes = take data_size (drop 64 bin) in
      let behind = drop (16 + length bytes) (cleared bout) in
      let size : length bytes ≡ data_size =
        omega (arith, length-take data_size (drop 64 bin), length-drop 64 bin) in
      let copied =
        transfer_copied data_size bin (cleared bout) s op (omega arith)
          (omega (arith, length-drop 64 bin)) (omega (arith, length-cleared bout (omega arith))) in
      let runs : process e key iv data_size bin bout s
          ≡ some (reply (internal_error ++ (bytes ++ behind)) ((16 + data_size) % 2 ^ 64) s) =
        unfold process in
        rw (memcpy-fits bout 0 success 16 (omega arith) (omega arith), copied, process)
          (complete_failed data_size _ (bytes ++ behind) (inr (refl, omega arith)) refl) in
      (
        internal_error ++ (bytes ++ behind),
        16 + data_size,
        s,
        handle_command e key iv data_size bin bout s small
            ∙ runs
            ∙ ap (λ k. some (reply (internal_error ++ (bytes ++ behind)) k s)) (omega arith),
        omega (
          arith,
          length-append bytes behind,
          length-drop (16 + length bytes) (cleared bout),
          length-cleared bout (omega arith),
        ),
        ho,
        take-append_add 16 data_size internal_error (bytes ++ behind) refl
            ∙ ap (λ (x : List ℕ). internal_error ++ x) (take-append data_size bytes behind size),
      )
