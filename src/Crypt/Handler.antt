-- ===== src/Crypt/Handler.antt =====
-- The command handler of firmware/crypt/main.c: one command read from the device, answered by a
-- completion and its data.
pub mod Laws
pub mod Replies
pub mod Errors
pub mod Reads
use nvme_csd.Base.{
  ℕ, ◌+◌, ◌-◌, ◌*◌, ◌%◌, ◌^◌, ℤ, pos, is_negative, is_zero, to_u64, to_int, List, [], ◌∷◌, ◌++◌,
  Option, none, some, Bool, not, ◌||◌, get_or, take, drop, replicate, memcpy, le_bytes, ltb, ◌==◌,
  if◌then◌else◌,
}
use nvme_csd.Crypt.Evp.{Evp}
use nvme_csd.Crypt.Aes.{Session}
use nvme_csd.Crypt.Lba.{LbaResult, lba_encrypt, lba_decrypt}

-- `sizeof(struct nvme_command)`
abbrev pub sizeof_command : ℕ
sizeof_command = 64

-- `sizeof(struct nvme_completion)`, and the offset of its field `status`.
abbrev pub sizeof_completion : ℕ
sizeof_completion = 16

abbrev pub status_offset : ℕ
status_offset = 14

-- `nvme_cmd_write`, `nvme_cmd_read` and `nvme_cmd_write_zeroes`
abbrev pub nvme_cmd_write : ℕ
nvme_cmd_write = 0x01

abbrev pub nvme_cmd_read : ℕ
nvme_cmd_read = 0x02

abbrev pub nvme_cmd_write_zeroes : ℕ
nvme_cmd_write_zeroes = 0x08

-- `NVME_SC_INTERNAL`
abbrev pub nvme_sc_internal : ℕ
nvme_sc_internal = 0x6

-- `PCI_EPF_NVME_MDTS` and `BUFFER_SIZE`
abbrev pub mdts : ℕ
mdts = 128 * 1024

abbrev pub buffer_size : ℕ
buffer_size = 2 * mdts

-- The tests on what `read` returns that end the loop.
pub data StopReason : Type 0 where
  end_of_file partial_read read_error : StopReason

module _ (e : Evp) (key iv : List ℕ) where
  -- One round of the loop: it stops, or `write` is called on the output buffer with a length.
  pub data Round : Type 0 where
    stop : StopReason → Round
    reply : List ℕ → ℕ → Session e → Round

  -- A call of `lba_encrypt` or `lba_decrypt` whose output pointer is behind the completion.
  pub behind_completion : List ℕ → Option (LbaResult e) → Option (LbaResult e)
  behind_completion bout none = none
  behind_completion bout (some r) = some (record r { out = take sizeof_completion bout ++ r.out })

  -- `if (data_size) { ... }`: the transfer by opcode. `memcpy` sets no result, which stays 0.
  pub transfer : ℕ → List ℕ → List ℕ → Session e → Option (LbaResult e)
  transfer data_size bin bout s =
      let opcode = get_or bin 0 0 in
      let input = drop sizeof_command bin in
      let output = drop sizeof_completion bout in
      if data_size == 0
      then some (record { ret = pos 0; out = bout; session = s })
      else if opcode == nvme_cmd_read
      then behind_completion bout (lba_decrypt e key iv (to_int data_size) input output s)
      else if opcode == nvme_cmd_write || opcode == nvme_cmd_write_zeroes
      then behind_completion bout (lba_encrypt e key iv (to_int data_size) input output s)
      else elim (memcpy bout sizeof_completion input data_size) [
        | none ↦ none
        | some bout' ↦ some (record { ret = pos 0; out = bout'; session = s })
      ]

  -- `if (ret < 0 || ret != data_size) cqe->status = NVME_SC_INTERNAL;` and `write`, whose length is
  -- a `size_t`.
  pub complete : ℕ → LbaResult e → Option Round
  complete data_size r =
      let marked =
        if is_negative r.ret || not (to_u64 r.ret == data_size)
        then memcpy r.out status_offset (le_bytes 2 nvme_sc_internal) 2
        else some r.out in
      elim marked [
        | none ↦ none
        | some out ↦ some (reply out ((sizeof_completion + data_size) % 2 ^ 64) r.session)
      ]

  -- From `memset` on, for a command with `data_size` bytes behind it.
  pub process : ℕ → List ℕ → List ℕ → Session e → Option Round
  process data_size bin bout s =
      elim (memcpy bout 0 (replicate sizeof_completion 0) sizeof_completion) [
        | none ↦ none
        | some cleared ↦ elim (transfer data_size bin cleared s) [
          | none ↦ none
          | some r ↦ complete data_size r
        ]
      ]

  -- The body of `while(1)`, from the value of `read` on. It is compared with `sizeof(sqe)`, the
  -- size of a pointer, as a `size_t`.
  pub handle : ℤ → List ℕ → List ℕ → Session e → Option Round
  handle ret bin bout s =
      if is_zero ret
      then some (stop end_of_file)
      else if ltb (to_u64 ret) 8
      then some (stop partial_read)
      else if is_negative ret
      then some (stop read_error)
      else process ((to_u64 ret + 2 ^ 64 - sizeof_command) % 2 ^ 64) bin bout s
