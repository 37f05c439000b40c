-- ===== src/Demos/Checksum/Prints.antt =====
-- What the checksum demo of host/demos/checksum/checksum.c has done where it prints a checksum, from
-- the file on.
use nvme_csd.Base.{
  ◌≤◌, ℕ, ◌≡◌, ◌≢◌, ℤ, is_negative, is_zero, to_u64, to_int, List, ◌∷◌, Option, some, false, field,
  if◌then◌else◌,
}
use nvme_csd.Cs.Sys.{Machine, Env, stat, open_file, pread, Reply, Event}
use nvme_csd.Demos.Checksum.{ChecksumOptions, Region, rounds}
use nvme_csd.Demos.Checksum.Runs.{IsComputed}

-- The last things that happened are that the file was opened, and read into the region from its start
-- on, at most `size` bytes.
pub record HasRead {S : Type 0} (name : List ℕ) (size : ℕ) (text : Region) (m : Machine S)
    : Type 0 where
  pub file : Reply
  pub amount : Reply
  pub earlier : List Event
  pub trace :
      m.trace
      ≡ record { call = pread file.ret text.address size; reply = amount }
        ∷ (record { call = open_file name; reply = file } ∷ earlier)
  pub is_open : is_negative file.ret ≡ false
  pub some_bytes : is_zero (to_int (to_u64 amount.ret)) ≡ false

-- The checksum is that of a request per iteration, made right after the file was read into the region
-- that the requests name.
pub record HasPrinted {S : Type 0} (dev : ℤ) (function size : ℕ) (o : ChecksumOptions) (sum : ℕ)
    (m : Machine S) : Type 0 where
  pub text : Region
  pub result : Region
  pub before : Machine S
  pub read : HasRead o.file size text before
  pub computed : IsComputed dev function size text result (rounds o.iterations) before sum m
  pub text_given : text.handle ≢ 0
  pub holds : size ≤ text.size
  pub result_given : result.handle ≢ 0

-- A region that was given has a handle, and is as large as was asked for.
abbrev pub IsGiven : ℤ → Option Region → Type 0
IsGiven bytes r = (g : Region) → r ≡ some g → (g.handle ≢ 0) × (g.size ≡ to_u64 bytes)

-- What the file's size is taken to be.
abbrev pub size_seen : {S : Type 0} → Env S → List ℕ → Machine S → ℕ
size_seen step name m =
    let st = (step (stat name) m.env).0 in if is_negative st.ret then 0 else field 0 8 st.buffer
