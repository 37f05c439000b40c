-- ===== src/Latency/Extract.antt =====
-- firmware/latency/extract_statistics.c: the two buffers are copied from sysfs to files.
pub mod Laws
use nvme_csd.Base.{
  ℕ, ℤ, pos, negsuc, is_negative, List, Option, none, some, Bool, ◌==◌, if◌then◌else◌,
}

-- What the C library and the file system do. `size_file` is what `fscanf` finds in the file of the
-- buffer's size, if that can be opened; `malloc` gives a buffer with whatever it holds; `fread` of one
-- item into a buffer from a file's content returns a number, and the buffer; the last two tell
-- whether an output file can be opened.
pub record Host : Type 0 where
  pub size_file : Option (Option ℕ)
  pub malloc_rd : ℕ → Option (List ℕ)
  pub malloc_wr : ℕ → Option (List ℕ)
  pub rd_statistics : Option (List ℕ)
  pub wr_statistics : Option (List ℕ)
  pub fread : List ℕ → List ℕ → ℤ × List ℕ
  pub can_write_rd : Bool
  pub can_write_wr : Bool

-- The exit status, and the content of each output file that was written.
pub record Extracted : Type 0 where
  pub status : ℤ
  pub rd_dump : Option (List ℕ)
  pub wr_dump : Option (List ℕ)

-- A return of -1 before a file is written.
abbrev pub failed : Extracted
failed = record { status = negsuc 0; rd_dump = none; wr_dump = none }

-- `buffer_size`
unfoldable pub size_of : Option (Option ℕ) → ℕ
size_of none = 64000
size_of (some none) = 64000
size_of (some (some n)) = n

-- One `fopen` and one `fread` of a whole buffer; `none` is a return of -1.
pub read_statistics : (List ℕ → List ℕ → ℤ × List ℕ) → Option (List ℕ) → List ℕ → Option (List ℕ)
read_statistics fread none buffer = none
read_statistics fread (some content) buffer =
    let (ret, buffer') = fread buffer content in if is_negative ret then none else some buffer'

-- From the first output file on. The results of `fwrite` are not looked at, and it is taken to write
-- the whole buffer.
pub write_dumps : Host → List ℕ → List ℕ → Extracted
write_dumps h rd wr =
    if h.can_write_rd
    then (if h.can_write_wr
        then record { status = pos 0; rd_dump = some rd; wr_dump = some wr }
        else record { status = negsuc 0; rd_dump = some rd; wr_dump = none })
    else failed

-- From the first input file on.
pub read_both : Host → List ℕ → List ℕ → Extracted
read_both h rd wr = elim (read_statistics h.fread h.rd_statistics rd) [
  | none ↦ failed
  | some rd' ↦ elim (read_statistics h.fread h.wr_statistics wr) [
    | none ↦ failed
    | some wr' ↦ write_dumps h rd' wr'
  ]
]

pub main : Host → Extracted
main h =
    let n = size_of h.size_file in
    if n == 0 then failed else elim (h.malloc_rd n) [
      | none ↦ failed
      | some rd ↦ elim (h.malloc_wr n) [ none ↦ failed | some wr ↦ read_both h rd wr ]
    ]
