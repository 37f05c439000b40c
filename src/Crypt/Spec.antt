-- ===== src/Crypt/Spec.antt =====
-- What a host may expect of the firmware of firmware/crypt/main.c: for each command, its status and
-- its data, with no word of buffers, contexts or loops.
pub mod Refine
use nvme_csd.Base.{ℕ, ◌+◌, ◌/◌, ◌%◌, ◌≡◌, List, [], ◌∷◌, ◌++◌, ◌||◌, length, ◌==◌, if◌then◌else◌}
use nvme_csd.Crypt.Lba.Laws.{map_blocks}
use nvme_csd.Crypt.Nvme.{NvmeCommand, opcode_of, completed, completion_bytes, nvme_sc_success}
use nvme_csd.Crypt.Handler.{nvme_cmd_write, nvme_cmd_read, nvme_cmd_write_zeroes, nvme_sc_internal}

-- A command, and the data behind it.
pub record Command : Type 0 where
  pub header : NvmeCommand
  pub text : List ℕ

-- `done`: no error, and the data. `failed`: an internal error, and the data. `refused`: an internal
-- error, and as many bytes as said, of which nothing is promised.
pub data Answer : Type 0 where
  done failed : List ℕ → Answer
  refused : ℕ → Answer

-- A transfer of whole blocks goes through `f`.
abbrev pub whole_blocks : (List ℕ → List ℕ) → List ℕ → Answer
whole_blocks f text =
    if length text % 512 == 0
    then done (map_blocks f (length text / 512) text)
    else refused (length text)

-- The answer to an opcode with data.
abbrev pub answer_to : (List ℕ → List ℕ) → (List ℕ → List ℕ) → ℕ → List ℕ → Answer
answer_to enc dec opcode text =
    if length text == 0
    then done []
    else if opcode == nvme_cmd_read
    then whole_blocks dec text
    else if opcode == nvme_cmd_write || opcode == nvme_cmd_write_zeroes
    then whole_blocks enc text
    else failed text

abbrev pub answer : (List ℕ → List ℕ) → (List ℕ → List ℕ) → Command → Answer
answer enc dec c = answer_to enc dec (opcode_of c.header) c.text

-- What is written to the device shows the answer: a completion with its status, and the data.
abbrev pub Shows : Answer → List ℕ → Type 0
Shows (done bytes) sent = sent ≡ completion_bytes (completed nvme_sc_success) ++ bytes
Shows (failed bytes) sent = sent ≡ completion_bytes (completed nvme_sc_internal) ++ bytes
Shows (refused n) sent =
    (stale : List ℕ) × (length stale ≡ n)
    × (sent ≡ completion_bytes (completed nvme_sc_internal) ++ stale)
