-- ===== src/Latency/Csv.antt =====
-- firmware/latency/csv_from_buffer/csv_from_buffer.cpp: a dump as a table of time stamps.
pub mod Rows
use nvme_csd.Base.{
  ℕ, zero, suc, ◌*◌, List, [], ◌∷◌, ◌++◌, Option, none, some, length, drop, field, leb,
  if◌then◌else◌,
}

-- `Timestamps`
pub record Timestamps : Type 0 where
  pub creation : ℕ
  pub xfer_start : ℕ
  pub xfer_prp : ℕ
  pub xfer_end : ℕ
  pub backend_start : ℕ
  pub backend_end : ℕ
  pub completion_start : ℕ
  pub completion : ℕ
  pub put_in_user_queue : ℕ
  pub user_space_start : ℕ
  pub user_space_end : ℕ

-- `sizeof(ts[i])`
abbrev pub sizeof_timestamps : ℕ
sizeof_timestamps = 11 * 8

-- A record as it stands in memory.
pub timestamps_at : List ℕ → Timestamps
timestamps_at bytes = record {
  creation = field 0 8 bytes;
  xfer_start = field 8 8 bytes;
  xfer_prp = field 16 8 bytes;
  xfer_end = field 24 8 bytes;
  backend_start = field 32 8 bytes;
  backend_end = field 40 8 bytes;
  completion_start = field 48 8 bytes;
  completion = field 56 8 bytes;
  put_in_user_queue = field 64 8 bytes;
  user_space_start = field 72 8 bytes;
  user_space_end = field 80 8 bytes;
}

-- `print_as_csv_line`: the numbers of a line, in the order of the columns.
abbrev pub csv_line : Timestamps → List ℕ
csv_line t =
    t.creation ∷ t.xfer_start ∷ t.xfer_prp ∷ t.xfer_end ∷ t.backend_start ∷ t.backend_end
    ∷ t.completion_start ∷ t.completion ∷ t.put_in_user_queue ∷ t.user_space_start
    ∷ t.user_space_end ∷ []

-- The loop over `n` records, from the rest of the file on. `none` is a line of a record that was not
-- read, or not in full, and holds what the stack held.
pub csv_lines : ℕ → List ℕ → List (Option (List ℕ))
csv_lines zero bytes = []
csv_lines (suc n) bytes =
    (if leb sizeof_timestamps (length bytes) then some (csv_line (timestamps_at bytes)) else none)
    ∷ csv_lines n (drop sizeof_timestamps bytes)

-- `main`, for the content of the file.
abbrev pub main : List ℕ → List (Option (List ℕ))
main bytes = csv_lines 1000 bytes
