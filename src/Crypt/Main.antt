-- ===== src/Crypt/Main.antt =====
-- `main` of firmware/crypt/main.c: the options, the device, and the loop over commands.
pub mod Laws
use nvme_csd.Base.{
  ℕ, ℤ, pos, negsuc, is_negative, List, [], ◌∷◌, Option, none, some, Bool, length, if◌then◌else◌,
}
use nvme_csd.Crypt.Evp.{Evp}
use nvme_csd.Crypt.Aes.{Session}
use nvme_csd.Crypt.Handler.{StopReason, Round, stop, reply, handle}

-- The key of `main`, "01234567890123456789012345678901", and its initialisation vector,
-- "0123456789012345", in bytes.
abbrev pub ten_digits : List ℕ → List ℕ
ten_digits rest = 48 ∷ 49 ∷ 50 ∷ 51 ∷ 52 ∷ 53 ∷ 54 ∷ 55 ∷ 56 ∷ 57 ∷ rest

abbrev pub key : List ℕ
key = ten_digits (ten_digits (ten_digits (48 ∷ 49 ∷ [])))

abbrev pub iv : List ℕ
iv = ten_digits (48 ∷ 49 ∷ 50 ∷ 51 ∷ 52 ∷ 53 ∷ [])

-- What `getopt` returns for "d:" before -1: the option with its argument, or '?'.
pub data Flag : Type 0 where
  device : List ℕ → Flag
  unknown : Flag

-- The loop over options. `none` is the exit with status 1.
pub parse_options : List ℕ → List Flag → Option (List ℕ)
parse_options path [] = some path
parse_options path (device optarg ∷ flags) = parse_options optarg flags
parse_options path (unknown ∷ flags) = none

-- What one call of `read` returns, and the content of the input buffer after it.
pub record Input : Type 0 where
  pub ret : ℤ
  pub bytes : List ℕ

module _ (e : Evp) where
  -- What the loop has written, each time the buffer and the length that `write` is given, and why
  -- it ended: by a test, since the environment makes no further read in this run, or by undefined
  -- behaviour.
  pub data Ending : Type 0 where
    stopped : StopReason → Ending
    waiting : Session e → Ending
    fault : Ending

  pub record Served : Type 0 where
    pub writes : List (List ℕ × ℕ)
    pub ending : Ending

  -- `while(1)`, over the results of the reads of a run. The result of `write` is not looked at.
  unfoldable pub serve : List Input → List ℕ → Session e → Served
  serve [] bout s = record { writes = []; ending = waiting s }
  serve (input ∷ inputs) bout s = elim (handle e key iv input.ret input.bytes bout s) [
    | none ↦ record { writes = []; ending = fault }
    | some (stop reason) ↦ record { writes = []; ending = stopped reason }
    | some (reply out n s') ↦
        let later = serve inputs out s' in
        record { writes = (out, n) ∷ later.writes; ending = later.ending }
  ]

  -- What the system calls before the loop return: `open` of /dev/random, `open` of the device by
  -- its path, and `malloc` of the output buffer, with the bytes that it happens to hold.
  pub record System : Type 0 where
    pub open_random : ℤ
    pub open_device : List ℕ → ℤ
    pub malloc_in : Bool
    pub malloc_out : Option (List ℕ)

  -- The exit status, with what was served if the loop was entered.
  pub record Exit : Type 0 where
    pub status : ℤ
    pub served : Option Served

  -- From the second `malloc` on.
  serve_device : System → List Input → Session e → Exit
  serve_device sys inputs s = elim sys.malloc_out [
    | none ↦ record { status = negsuc 0; served = none }
    | some bout ↦
        if sys.malloc_in
        then record { status = pos 0; served = some (serve inputs bout s) }
        else record { status = negsuc 0; served = none }
  ]

  pub main : System → List Flag → List Input → Session e → Exit
  main sys flags inputs s =
      if is_negative sys.open_random
      then record { status = negsuc 0; served = none }
      else elim (parse_options [] flags) [
        | none ↦ record { status = pos 1; served = none }
        | some path ↦
            let fd = sys.open_device path in
            if is_negative fd
            then record { status = fd; served = none }
            else serve_device sys inputs s
      ]
