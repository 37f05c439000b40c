-- ===== src/Crypt/Handler/Replies.antt =====
-- Replies of firmware/crypt/main.c to reads and writes of whole blocks.
use nvme_csd.Base.{
  ℕ, ◌+◌, ◌*◌, ◌^◌, ◌≤◌, ◌<◌, ◌≡◌, ◌⊎◌, refl, ◌∙◌, ap, subst, pos, List, ◌∷◌, ◌++◌, get_or, length,
  drop, arith, length-append, drop-append, take-append,
}
use nvme_csd.Crypt.Evp.{Evp, IsCbc}
use nvme_csd.Crypt.Aes.{Session}
use nvme_csd.Crypt.Lba.Laws.{map_blocks, length-map_blocks, map_blocks-map_blocks}
use nvme_csd.Crypt.Handler.{nvme_cmd_write, nvme_cmd_read, nvme_cmd_write_zeroes, handle}
use nvme_csd.Crypt.Handler.Laws.{
  success, cleared, length-cleared, Sends, process_done, handle_command, transfer_write,
  transfer_read,
}

-- The opcodes whose data is encrypted.
abbrev pub IsWrite : List ℕ → Type 0
IsWrite bin = (get_or bin 0 0 ≡ nvme_cmd_write) ⊎ (get_or bin 0 0 ≡ nvme_cmd_write_zeroes)

module _ (e : Evp) (key iv : List ℕ) (enc dec : List ℕ → List ℕ) (cbc : IsCbc e key iv enc dec)
    (n : ℕ) (some_data : 0 < n) (small : 512 * n < 2 ^ 31) where
  -- Under the documented behaviour of the cipher, and with an output buffer no shorter than the
  -- input buffer: a write command (or one of zeroes) with `n` whole blocks of data, `n` not zero and
  -- below 2 ^ 31 bytes, is answered by a completion with no error and the blocks, each encrypted on
  -- its own.
  pub handle_write :
      (bin bout : List ℕ) (s : Session e)
      → IsWrite bin
      → 64 + 512 * n ≤ length bin
      → length bin ≤ length bout
      → Sends e key iv
          (length bout)
          (handle e key iv (pos (64 + 512 * n)) bin bout s)
          (success ++ map_blocks enc n (drop 64 bin))
  handle_write bin bout s op hi ho =
      let room = length-cleared bout (omega arith) in
      let (r, moved, done) =
        transfer_write e key iv enc dec cbc n bin (cleared bout) s some_data small hi (omega arith)
          op in
      rw (handle_command e key iv (512 * n) bin bout s small) (
        process_done e key iv (512 * n) bin bout (map_blocks enc n (drop 64 bin)) s r (omega arith)
          small moved done)

  -- Under the documented behaviour of the cipher, and with an output buffer no shorter than the
  -- input buffer: a read command with `n` whole blocks of data, `n` not zero and below 2 ^ 31 bytes,
  -- is answered by a completion with no error and the blocks, each decrypted on its own.
  pub handle_read :
      (bin bout : List ℕ) (s : Session e)
      → get_or bin 0 0 ≡ nvme_cmd_read
      → 64 + 512 * n ≤ length bin
      → length bin ≤ length bout
      → Sends e key iv
          (length bout)
          (handle e key iv (pos (64 + 512 * n)) bin bout s)
          (success ++ map_blocks dec n (drop 64 bin))
  handle_read bin bout s op hi ho =
      let room = length-cleared bout (omega arith) in
      let (r, moved, done) =
        transfer_read e key iv enc dec cbc n bin (cleared bout) s some_data small hi (omega arith)
          op in
      rw (handle_command e key iv (512 * n) bin bout s small) (
        process_done e key iv (512 * n) bin bout (map_blocks dec n (drop 64 bin)) s r (omega arith)
          small moved done)

  -- Under the documented behaviour of the cipher, for `n` whole blocks, `n` not zero and below
  -- 2 ^ 31 bytes, and output buffers no shorter than what is read: what a write stores, a read gives
  -- back. The data `stored` that the successful reply to a write of `text` carries comes back as
  -- `text` in the successful reply to a read that carries it. The rest of the commands, the bytes
  -- behind the data, the output buffers and the states of the library are arbitrary.
  pub handle_round_trip :
      (op : ℕ) (write read text rest rest' bout bout' : List ℕ) (s s' : Session e)
      → (op ≡ nvme_cmd_write) ⊎ (op ≡ nvme_cmd_write_zeroes)
      → length write ≡ 63
      → length read ≡ 63
      → length text ≡ 512 * n
      → 64 + 512 * n + length rest ≤ length bout
      → 64 + 512 * n + length rest' ≤ length bout'
      → (stored : List ℕ) × Sends e key iv
          (length bout)
          (handle e key iv (pos (64 + 512 * n)) (op ∷ write ++ (text ++ rest)) bout s)
          (success ++ stored)
        × Sends e key iv
            (length bout')
            (handle e key iv
              (pos (64 + 512 * n))
              (nvme_cmd_read ∷ read ++ (stored ++ rest'))
              bout'
              s')
            (success ++ text)
  handle_round_trip op write read text rest rest' bout bout' s s' h hw hr ht ho ho' =
      let keeps : (x : List ℕ) → length x ≡ 512 → length (enc x) ≡ 512 =
        λ x k. cbc.length-enc x (omega arith) ∙ k in
      let input = text ++ rest in
      let stored = map_blocks enc n input in
      let long : length input ≡ 512 * n + length rest = omega (arith, length-append text rest) in
      let size : length stored ≡ 512 * n = length-map_blocks enc keeps n input (omega arith) in
      let back : map_blocks dec n (stored ++ rest') ≡ text =
        map_blocks-map_blocks enc dec keeps (λ x k. cbc.dec-enc x (omega arith)) n input rest'
          (omega arith)
        ∙ take-append (512 * n) text rest ht in
      let whole = length-append (op ∷ write) input in
      let whole' = length-append (nvme_cmd_read ∷ read) (stored ++ rest') in
      let rest_size = length-append stored rest' in
      (
        stored,
        subst
            (λ x.
              Sends e key iv (length bout)
                (handle e key iv (pos (64 + 512 * n)) (op ∷ write ++ input) bout s)
                (success ++ map_blocks enc n x))
            (drop-append 63 write input hw)
            (handle_write (op ∷ write ++ input) bout s h (omega arith) (omega arith)),
        subst
            (λ x.
              Sends e key iv (length bout')
                (handle e key iv (pos (64 + 512 * n)) (nvme_cmd_read ∷ read ++ (stored ++ rest'))
                  bout' s')
                (success ++ x))
            (ap (map_blocks dec n) (drop-append 63 read (stored ++ rest') hr) ∙ back)
            (handle_read (nvme_cmd_read ∷ read ++ (stored ++ rest')) bout' s' refl (omega arith)
              (omega arith)),
      )
