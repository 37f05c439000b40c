-- ===== src/Latency/Csv/Rows.antt =====
-- Which records the table of firmware/latency/csv_from_buffer/csv_from_buffer.cpp shows.
use nvme_csd.Base.{
  ℕ, zero, suc, ◌/◌, ◌^◌, ◌<◌, min, ◌≡◌, refl, arith, List, [], ◌∷◌, ◌++◌, map, append_assoc,
  Option, none, some, length, drop, le_bytes, le→leb, not_le→leb, length-drop, length-append,
  le_value-le_bytes_eight, drop-append,
}
use native.Mathlib.Decide.{dec_lt}
use nvme_csd.Latency.Csv.{Timestamps, timestamps_at, csv_line, csv_lines}

-- A record as the kernel writes it.
abbrev pub encode : Timestamps → List ℕ
encode t =
    le_bytes 8 t.creation
    ++ (le_bytes 8 t.xfer_start
        ++ (le_bytes 8 t.xfer_prp
            ++ (le_bytes 8 t.xfer_end
                ++ (le_bytes 8 t.backend_start
                    ++ (le_bytes 8 t.backend_end
                        ++ (le_bytes 8 t.completion_start
                            ++ (le_bytes 8 t.completion
                                ++ (le_bytes 8 t.put_in_user_queue
                                    ++ (le_bytes 8 t.user_space_start
                                        ++ le_bytes 8 t.user_space_end)))))))))

abbrev pub encode_all : List Timestamps → List ℕ
encode_all [] = []
encode_all (t ∷ ts) = encode t ++ encode_all ts

-- Every number fits into 64 bits.
abbrev pub AreWords : List ℕ → Type 0
AreWords [] = Unit
AreWords (w ∷ ws) = (w < 2 ^ 64) × AreWords ws

abbrev pub AreAllWords : List Timestamps → Type 0
AreAllWords [] = Unit
AreAllWords (t ∷ ts) = AreWords (csv_line t) × AreAllWords ts

csv_line-encode :
    (t : Timestamps) (rest : List ℕ)
    → AreWords (csv_line t)
    → csv_line (timestamps_at (encode t ++ rest)) ≡ csv_line t
unfolding timestamps_at
csv_line-encode t rest h =
    let (a, (b, (c, (d, (e, (f, (g, (i, (j, (k, (l, u))))))))))) = h in
    rw
      (
        le_value-le_bytes_eight t.creation a,
        le_value-le_bytes_eight t.xfer_start b,
        le_value-le_bytes_eight t.xfer_prp c,
        le_value-le_bytes_eight t.xfer_end d,
        le_value-le_bytes_eight t.backend_start e,
        le_value-le_bytes_eight t.backend_end f,
        le_value-le_bytes_eight t.completion_start g,
        le_value-le_bytes_eight t.completion i,
        le_value-le_bytes_eight t.put_in_user_queue j,
        le_value-le_bytes_eight t.user_space_start k,
        le_value-le_bytes_eight t.user_space_end l,
      )
      refl

length-encode : (t : Timestamps) → length (encode t) ≡ 88
length-encode t = refl

-- A dump of `n` records of numbers of 64 bits, with anything behind them, is shown line by line as the
-- numbers that were recorded.
pub csv_lines-encode_all :
    (ts : List Timestamps) (rest : List ℕ)
    → AreAllWords ts
    → csv_lines (length ts) (encode_all ts ++ rest) ≡ map (λ t. some (csv_line t)) ts
unfolding csv_lines
csv_lines-encode_all [] rest h = refl
csv_lines-encode_all (t ∷ ts) rest h =
    let assoc = append_assoc (encode t) (encode_all ts) rest in
    rw assoc (
      rw
        (
          le→leb 88 (length (encode t ++ (encode_all ts ++ rest)))
              (omega (arith, length-append (encode t) (encode_all ts ++ rest), length-encode t)),
          csv_line-encode t (encode_all ts ++ rest) h.0,
          drop-append 88 (encode t) (encode_all ts ++ rest) (length-encode t),
          csv_lines-encode_all ts rest h.1,
        )
        refl)

-- The lines that show a record that was read in full.
abbrev pub shown : List (Option (List ℕ)) → ℕ
shown [] = 0
shown (none ∷ lines) = shown lines
shown (some line ∷ lines) = suc (shown lines)

-- Of `n` lines as many show a record as the file holds records of 88 bytes; the others show what was
-- never read.
pub shown-csv_lines :
    (n : ℕ) (bytes : List ℕ) → shown (csv_lines n bytes) ≡ min n (length bytes / 88)
unfolding csv_lines
shown-csv_lines zero bytes = omega arith
shown-csv_lines (suc n) bytes = elim (dec_lt (length bytes) 88) [
  | yes short ↦
      rw (not_le→leb 88 (length bytes) short)
        (omega (arith, shown-csv_lines n (drop 88 bytes), length-drop 88 bytes))
  | no enough ↦
      rw (le→leb 88 (length bytes) (omega arith))
        (omega (arith, shown-csv_lines n (drop 88 bytes), length-drop 88 bytes))
]
