-- ===== src/Latency/Table.antt =====
-- From the kernel's buffer to the table: firmware/latency/extract_statistics.c and
-- firmware/latency/csv_from_buffer/csv_from_buffer.cpp one after the other.
use nvme_csd.Base.{ℕ, ◌/◌, ◌<◌, min, ◌≡◌, ◌∙◌, ap, pos, List, some}
use nvme_csd.Latency.Extract.{Host, size_of, main}
use nvme_csd.Latency.Extract.Laws.{Freads, IsReady, main_short}
use nvme_csd.Latency.Csv as Csv
use nvme_csd.Latency.Csv.Rows.{shown, shown-csv_lines}

-- Where memory, both statistics files and both output files are there, and the buffer has a size that
-- is not 0: the table of each dump has 1000 lines, of which as many show a record as records of 88
-- bytes fit into the buffer. With the size of 64000 that is taken where the kernel tells none, these
-- are 727.
pub table_shown :
    (h : Host) (reads : Freads h.fread) (rd wr rd_content wr_content : List ℕ)
    (ready : IsReady h rd wr rd_content wr_content)
    → 0 < size_of h.size_file
    → (rd' : List ℕ) × (wr' : List ℕ) × (main h
        ≡ record { status = pos 0; rd_dump = some rd'; wr_dump = some wr' })
      × (shown (Csv.main rd') ≡ min 1000 (size_of h.size_file / 88))
      × (shown (Csv.main wr') ≡ min 1000 (size_of h.size_file / 88))
table_shown h reads rd wr rd_content wr_content ready some_size =
    let (rd', wr', runs, hr, hw) = main_short h reads rd wr rd_content wr_content ready some_size in
    (
      rd',
      wr',
      runs,
      shown-csv_lines 1000 rd' ∙ ap (λ k. min 1000 (k / 88)) hr,
      shown-csv_lines 1000 wr' ∙ ap (λ k. min 1000 (k / 88)) hw,
    )
