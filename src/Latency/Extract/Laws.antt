-- ===== src/Latency/Extract/Laws.antt =====
-- What the files that firmware/latency/extract_statistics.c writes hold.
use nvme_csd.Base.{
  ℤ, ◌∙◌, ℕ, ◌≤◌, ◌<◌, ◌≡◌, refl, ap, arith, pos, List, some, true, length, take, ne→==,
}
use native.Mathlib.Decide.{dec_lt}
use nvme_csd.Latency.Extract.{Host, size_of, read_statistics, write_dumps, read_both, main}

-- `fread` of one item: it returns 1 and fills the buffer where the file holds as much, and 0 where it
-- does not; the buffer keeps its size.
pub record Freads (fread : List ℕ → List ℕ → ℤ × List ℕ) : Type 0 where
  pub whole :
      (buffer content : List ℕ)
      → length buffer ≤ length content
      → fread buffer content ≡ (pos 1, take (length buffer) content)
  pub short :
      (buffer content : List ℕ) → length content < length buffer → (fread buffer content).0 ≡ pos 0
  pub size : (buffer content : List ℕ) → length (fread buffer content).1 ≡ length buffer

-- Memory, both statistics and both output files are there.
pub record IsReady (h : Host) (rd wr rd_content wr_content : List ℕ) : Type 0 where
  pub rd_memory : h.malloc_rd (size_of h.size_file) ≡ some rd
  pub wr_memory : h.malloc_wr (size_of h.size_file) ≡ some wr
  pub rd_size : length rd ≡ size_of h.size_file
  pub wr_size : length wr ≡ size_of h.size_file
  pub rd_file : h.rd_statistics ≡ some rd_content
  pub wr_file : h.wr_statistics ≡ some wr_content
  pub rd_output : h.can_write_rd ≡ true
  pub wr_output : h.can_write_wr ≡ true

read_statistics_lem :
    (fread : List ℕ → List ℕ → ℤ × List ℕ) (content buffer buffer' : List ℕ) (n : ℕ)
    → fread buffer content ≡ (pos n, buffer')
    → read_statistics fread (some content) buffer ≡ some buffer'
unfolding read_statistics
read_statistics_lem fread content buffer buffer' n e = rw e refl

module _ (h : Host) (reads : Freads h.fread) (rd wr rd_content wr_content : List ℕ)
    (ready : IsReady h rd wr rd_content wr_content) (some_size : 0 < size_of h.size_file) where
  read_both_lem :
      (rd' wr' : List ℕ)
      → read_statistics h.fread h.rd_statistics rd ≡ some rd'
      → read_statistics h.fread h.wr_statistics wr ≡ some wr'
      → read_both h rd wr ≡ record { status = pos 0; rd_dump = some rd'; wr_dump = some wr' }
  unfolding read_both write_dumps
  read_both_lem rd' wr' er ew =
      rw (er, read_both)
        (rw (ew, read_both)
          (rw (ready.rd_output, write_dumps) (rw (ready.wr_output, write_dumps) refl)))

  main_reads :
      (m n : ℕ) (rd' wr' : List ℕ)
      → h.fread rd rd_content ≡ (pos m, rd')
      → h.fread wr wr_content ≡ (pos n, wr')
      → main h ≡ record { status = pos 0; rd_dump = some rd'; wr_dump = some wr' }
  unfolding main
  main_reads m n rd' wr' er ew = simp (
    ne→== (size_of h.size_file) 0 (λ e. omega arith),
    ready.rd_memory,
    ready.wr_memory,
    read_both_lem rd' wr'
        (ap (λ o. read_statistics h.fread o rd) ready.rd_file
          ∙ read_statistics_lem h.fread rd_content rd rd' m er)
        (ap (λ o. read_statistics h.fread o wr) ready.wr_file
          ∙ read_statistics_lem h.fread wr_content wr wr' n ew),
  )

  -- Where memory, both statistics files and both output files are there, the buffer has a size that is
  -- not 0, and each statistics file holds as many bytes: the dumps are their first bytes, as many as
  -- the buffer has.
  pub main_lem :
      size_of h.size_file ≤ length rd_content
      → size_of h.size_file ≤ length wr_content
      → main h ≡ record {
        status = pos 0;
        rd_dump = some (take (size_of h.size_file) rd_content);
        wr_dump = some (take (size_of h.size_file) wr_content);
      }
  main_lem hr hw =
      main_reads 1 1 (take (size_of h.size_file) rd_content) (take (size_of h.size_file) wr_content)
        (reads.whole rd rd_content (omega (arith, ready.rd_size))
          ∙ ap (λ k. (pos 1, take k rd_content)) ready.rd_size)
        (reads.whole wr wr_content (omega (arith, ready.wr_size))
          ∙ ap (λ k. (pos 1, take k wr_content)) ready.wr_size)

  -- `fread` is not seen to fail.
  counts :
      (buffer content : List ℕ)
      → (n : ℕ) × (h.fread buffer content ≡ (pos n, (h.fread buffer content).1))
  counts buffer content = elim (dec_lt (length content) (length buffer)) [
    | yes short ↦ (0, ap (λ r. (r, (h.fread buffer content).1)) (reads.short buffer content short))
    | no enough ↦ (
      1,
      ap (λ (p : ℤ × List ℕ). (p.0, (h.fread buffer content).1))
          (reads.whole buffer content (omega arith)),
    )
  ]

  -- Where memory, both statistics files and both output files are there, and the buffer has a size
  -- that is not 0: whatever the statistics files hold, also where they are shorter than the buffer,
  -- the run ends with status 0, and each dump has the size of the buffer.
  pub main_short :
      (rd' : List ℕ) × (wr' : List ℕ) × (main h
        ≡ record { status = pos 0; rd_dump = some rd'; wr_dump = some wr' })
      × (length rd' ≡ size_of h.size_file)
      × (length wr' ≡ size_of h.size_file)
  main_short =
      let (m, er) = counts rd rd_content in
      let (n, ew) = counts wr wr_content in
      let rd' = (h.fread rd rd_content).1 in
      let wr' = (h.fread wr wr_content).1 in
      (
        rd',
        wr',
        main_reads m n rd' wr' er ew,
        reads.size rd rd_content ∙ ready.rd_size,
        reads.size wr wr_content ∙ ready.wr_size,
      )
