-- ===== src/Demos/Checksum.antt =====
-- host/demos/checksum/checksum.c: the checksum of a file, computed by the device.
pub mod Sizes
pub mod Runs
pub mod Prints
pub mod Laws
use nvme_csd.Base.{
  ℕ, zero, suc, ◌+◌, ◌*◌, ◌/◌, ◌%◌, ◌^◌, ℤ, pos, negsuc, is_negative, is_zero, to_u64, to_int, List,
  [], ◌∷◌, Option, none, some, ◌++◌, Bool, true, false, not, length, field, ◌==◌, leb,
  if◌then◌else◌,
}
use nvme_csd.Cs.Sys.{M, pure, ◌>>=◌, lift, Env, sys, stat, open_file, pread, load_word}
use nvme_csd.Cs.Types.{is_success, checksum, has_function}
use nvme_csd.Cs.Memory.{cs_alloc_mem}
use nvme_csd.Cs.Query.{cs_get_function, checksum_name}
use nvme_csd.Cs.Compute.{cs_queue_compute_request}
use nvme_csd.Demos.Session.{Locals, Opened, quit, opened, open_session}
use nvme_csd.Demos.Request.{checksum_request}

-- What `getopt` returns for "d:f:i:" before -1, and the options.
pub data ChecksumFlag : Type 0 where
  checksum_device checksum_file checksum_iterations : List ℕ → ChecksumFlag
  checksum_unknown : ChecksumFlag

pub record ChecksumOptions : Type 0 where
  pub path : List ℕ
  pub file : List ℕ
  pub iterations : ℤ

-- No device, "test.bin", and one iteration.
abbrev pub checksum_defaults : ChecksumOptions
checksum_defaults = record {
  path = [];
  file = 116 ∷ 101 ∷ 115 ∷ 116 ∷ 46 ∷ 98 ∷ 105 ∷ 110 ∷ [];
  iterations = pos 1;
}

-- `atoi` is the C library's.
pub parse_checksum : (List ℕ → ℤ) → ChecksumOptions → List ChecksumFlag → Option ChecksumOptions
parse_checksum atoi o [] = some o
parse_checksum atoi o (checksum_device path ∷ flags) =
    parse_checksum atoi (record o { path = path }) flags
parse_checksum atoi o (checksum_file file ∷ flags) =
    parse_checksum atoi (record o { file = file }) flags
parse_checksum atoi o (checksum_iterations text ∷ flags) =
    parse_checksum atoi (record o { iterations = atoi text }) flags
parse_checksum atoi o (checksum_unknown ∷ flags) = none

-- `__ALIGN(x, 4096)` on 64 bits.
pub align_4k : ℕ → ℕ
align_4k x = (x + 4095) % 2 ^ 64 / 4096 * 4096

-- An exit status without a result, or the checksum that is printed before the return of 0.
pub data Outcome : Type 0 where
  exited : ℤ → Outcome
  printed : ℕ → Outcome

-- A region of device memory, with its mapping: where it begins, and its bytes.
pub record Region : Type 0 where
  pub handle : ℕ
  pub address : ℤ
  pub size : ℕ

-- The rounds that `for (int i = 0; i < iterations; ++i)` makes.
abbrev pub rounds : ℤ → ℕ
rounds (pos n) = n
rounds (negsuc n) = 0

module _ {S : Type 0} (step : Env S) where
  -- `__fileSize`
  pub file_size : List ℕ → M S ℕ
  file_size name = do
    st ← sys step (stat name)
    pure (if is_negative st.ret then 0 else field 0 8 st.buffer)

  -- One round of the loop over the two regions. A region is given only with both of its parts:
  -- where `csAllocMem` succeeds it has written them.
  pub alloc_bytes : ℤ → ℤ → M S (Option Region)
  alloc_bytes dev bytes = do
    a ← cs_alloc_mem step dev bytes true true
    if is_success a.status
        then lift (elim a.mem_handle [
          | none ↦ none
          | some h ↦ elim a.vaddress [
            | none ↦ none
            | some v ↦ some (some (record { handle = h; address = v; size = to_u64 bytes }))
          ]
        ])
        else pure none

  -- The size is passed as an `int`.
  pub alloc_region : ℤ → ℕ → M S (Option Region)
  alloc_region dev bytes = alloc_bytes dev (to_int bytes)

  -- The file is read into the mapping, which a size beyond that of the mapping overruns; `ret` is an
  -- `int`. `false` is an `ERROR_QUIT`.
  pub read_file : List ℕ → ℕ → Region → M S Bool
  read_file name size text = do
    file ← sys step (open_file name)
    if is_negative file.ret then pure false else if is_zero text.address then pure false else (do
      fits ← lift (if leb size text.size then some true else none)
      r ← sys step (pread file.ret text.address size)
      pure (not (is_zero (to_int (to_u64 r.ret)))))

  -- The loop over iterations, with the last status.
  pub run_requests : ℕ → List ℕ → ℤ → M S ℤ
  run_requests zero req status = pure status
  run_requests (suc n) req status = do
    status' ← cs_queue_compute_request step (some req)
    run_requests n req status'

  -- From the setup of the request on.
  pub compute_checksum : ℤ → ℕ → ℕ → Region → Region → ℕ → M S Outcome
  compute_checksum dev function size text result n = do
    req ← lift (checksum_request dev function size text.handle result.handle)
    status ← run_requests n req (pos 0)
    if is_zero status
        then (do word ← sys step (load_word result.address); pure (printed (field 0 4 word.buffer)))
        else pure (exited (pos 1))

  -- From `calloc` on.
  pub checksum_with : ℤ → ℕ → ChecksumOptions → ℕ → Bool → Region → Region → M S Outcome
  checksum_with dev function o size calloc text result =
      if calloc
      then (do
        done ← read_file o.file size text
        if done
            then compute_checksum dev function size text result (rounds o.iterations)
            else pure (exited (pos 1)))
      else pure (exited (pos 1))

  -- From the end of the loop over the regions on, which is not reached without both.
  pub checksum_in : ℤ → ℕ → ChecksumOptions → ℕ → Bool → Region → Option Region → M S Outcome
  checksum_in dev function o size calloc text none = pure (exited (pos 1))
  checksum_in dev function o size calloc text (some result) =
      checksum_with dev function o size calloc text result

  -- From the second region on, which is for the result.
  pub alloc_result : ℤ → ℕ → ChecksumOptions → ℕ → Bool → Option Region → M S Outcome
  alloc_result dev function o size calloc none = pure (exited (pos 1))
  alloc_result dev function o size calloc (some text) = do
    result ← alloc_region dev 4096
    checksum_in dev function o size calloc text result

  -- From the file's size on; the first region is for the file, rounded up to 4096 bytes.
  pub checksum_file_on : ℤ → ℕ → ChecksumOptions → Bool → M S Outcome
  checksum_file_on dev function o calloc = do
    size ← file_size o.file
    text ← alloc_region dev (align_4k size)
    alloc_result dev function o size calloc text

  -- From the opened device on; `function` is the memory at `functId`, a local of 4 bytes.
  pub checksum_on : ℤ → ℕ → List ℕ → ChecksumOptions → Bool → M S Outcome
  checksum_on dev word function o calloc =
      if has_function word checksum
      then (do
        (status, id) ← cs_get_function step dev (some (checksum_name ++ (0 ∷ []))) (some function)
        if is_success status
            then checksum_file_on dev (field 0 4 id) o calloc
            else pure (exited (pos 1)))
      else pure (exited (pos 1))

  -- From the capabilities on.
  pub checksum_opened : List ℕ → ChecksumOptions → Bool → Opened → M S Outcome
  checksum_opened function o calloc quit = pure (exited (pos 1))
  checksum_opened function o calloc (opened dev word lines) = checksum_on dev word function o calloc

  -- The body behind the options.
  pub checksum_device_for :
      (List ℕ → List ℕ) → Locals → List ℕ → Bool → ChecksumOptions → M S Outcome
  checksum_device_for basename locals function calloc o =
      if length o.path == 0 then pure (exited (negsuc 0)) else (do
        session ← open_session step basename o.path locals
        checksum_opened function o calloc session)

  pub checksum_main :
      (List ℕ → ℤ) → (List ℕ → List ℕ) → Locals → List ℕ → Bool → List ChecksumFlag → M S Outcome
  checksum_main atoi basename locals function calloc flags =
      elim (parse_checksum atoi checksum_defaults flags) [
        | none ↦ pure (exited (negsuc 0))
        | some o ↦ checksum_device_for basename locals function calloc o
      ]
