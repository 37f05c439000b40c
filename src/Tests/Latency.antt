-- ===== src/Tests/Latency.antt =====
-- The latency tools of firmware/latency on small files.
use nvme_csd.Base.{
  ℤ, ℕ, ◌/◌, ◌≤◌, ◌<◌, min, ◌≡◌, refl, arith, pos, List, [], ◌∷◌, ◌++◌, map, some, true, length,
  take, drop, replicate, leb, if◌then◌else◌, le→leb, not_le→leb, length-take, length-append,
  length-drop,
}
use nvme_csd.Latency.Extract.{Host, size_of, main}
use nvme_csd.Latency.Extract.Laws.{Freads, IsReady, main_lem}
use nvme_csd.Latency.Csv as Csv
use nvme_csd.Latency.Csv.{Timestamps, csv_line, csv_lines}
use nvme_csd.Latency.Csv.Rows.{encode_all, csv_lines-encode_all, shown}
use nvme_csd.Latency.Table.{table_shown}

-- A file shorter than the buffer leaves the buffer's end alone.
abbrev toy_fread : List ℕ → List ℕ → ℤ × List ℕ
toy_fread buffer content =
    if leb (length buffer) (length content)
    then (pos 1, take (length buffer) content)
    else (pos 0, content ++ drop (length content) buffer)

toy_fread-Freads : Freads toy_fread
toy_fread-Freads = record {
  whole = λ buffer content h. rw (le→leb (length buffer) (length content) h);
  short = λ buffer content h. rw (not_le→leb (length buffer) (length content) h);
  size = λ buffer content. ground (
    arith,
    length-take (length buffer) content,
    length-append content (drop (length content) buffer),
    length-drop (length content) buffer,
  );
}

-- A kernel that tells a size of 100 bytes.
abbrev host : Host
host = record {
  size_file = some (some 100);
  malloc_rd = λ n. some (replicate n 1);
  malloc_wr = λ n. some (replicate n 2);
  rd_statistics = some (replicate 120 3);
  wr_statistics = some (replicate 110 4);
  fread = toy_fread;
  can_write_rd = true;
  can_write_wr = true;
}

ready : IsReady host (replicate 100 1) (replicate 100 2) (replicate 120 3) (replicate 110 4)
unfolding size_of
ready = record {
  rd_memory = refl;
  wr_memory = refl;
  rd_size = refl;
  wr_size = refl;
  rd_file = refl;
  wr_file = refl;
  rd_output = refl;
  wr_output = refl;
}

some_size : 0 < size_of host.size_file
unfolding size_of
some_size = omega arith

rd_holds : size_of host.size_file ≤ length (replicate {A = ℕ} 120 3)
unfolding size_of
rd_holds = omega arith

wr_holds : size_of host.size_file ≤ length (replicate {A = ℕ} 110 4)
unfolding size_of
wr_holds = omega arith

main_lem_example : main host ≡ record {
  status = pos 0;
  rd_dump = some (take (size_of host.size_file) (replicate 120 3));
  wr_dump = some (take (size_of host.size_file) (replicate 110 4));
}
main_lem_example =
    main_lem host toy_fread-Freads (replicate 100 1) (replicate 100 2) (replicate 120 3)
      (replicate 110 4) ready some_size rd_holds wr_holds

table_shown_example :
    (rd' : List ℕ) × (wr' : List ℕ) × (main host
      ≡ record { status = pos 0; rd_dump = some rd'; wr_dump = some wr' })
    × (shown (Csv.main rd') ≡ min 1000 (size_of host.size_file / 88))
    × (shown (Csv.main wr') ≡ min 1000 (size_of host.size_file / 88))
table_shown_example =
    table_shown host toy_fread-Freads (replicate 100 1) (replicate 100 2) (replicate 120 3)
      (replicate 110 4) ready some_size

abbrev stamps : Timestamps
stamps = record {
  creation = 10;
  xfer_start = 20;
  xfer_prp = 30;
  xfer_end = 40;
  backend_start = 50;
  backend_end = 60;
  completion_start = 70;
  completion = 80;
  put_in_user_queue = 90;
  user_space_start = 100;
  user_space_end = 110;
}

csv_lines-encode_all_example :
    csv_lines 1 (encode_all (stamps ∷ []) ++ (1 ∷ [])) ≡ map (λ t. some (csv_line t)) (stamps ∷ [])
csv_lines-encode_all_example = csv_lines-encode_all (stamps ∷ []) (1 ∷ []) ((omega arith), tt)
