-- ===== src/Demos/Sleep.antt =====
-- host/demos/sleep/sleep.c: a request that makes the device sleep.
pub mod Laws
use nvme_csd.Base.{
  ℕ, ◌%◌, ◌^◌, ℤ, pos, negsuc, is_zero, List, [], ◌∷◌, Option, none, some, Bool, length, replicate,
  ◌==◌, if◌then◌else◌,
}
use nvme_csd.Cs.Sys.{M, pure, ◌>>=◌, lift, Env}
use nvme_csd.Cs.Types.{cs_32bit_value_type, sizeof_compute_request, sizeof_compute_arg}
use nvme_csd.Cs.Compute.{cs_queue_compute_request}
use nvme_csd.Demos.Session.{Locals, Opened, quit, opened, open_session}
use nvme_csd.Demos.Request.{sleep_request}

-- What `getopt` returns for "d:l:" before -1, and the options.
pub data SleepFlag : Type 0 where
  sleep_device sleep_length : List ℕ → SleepFlag
  sleep_unknown : SleepFlag

pub record SleepOptions : Type 0 where
  pub path : List ℕ
  pub msleep_length : ℕ

-- `strtoul` is the C library's; its result is cut to 32 bits.
pub parse_sleep : (List ℕ → ℕ) → SleepOptions → List SleepFlag → Option SleepOptions
parse_sleep strtoul o [] = some o
parse_sleep strtoul o (sleep_device path ∷ flags) =
    parse_sleep strtoul (record o { path = path }) flags
parse_sleep strtoul o (sleep_length text ∷ flags) =
    parse_sleep strtoul (record o { msleep_length = strtoul text % 2 ^ 32 }) flags
parse_sleep strtoul o (sleep_unknown ∷ flags) = none

-- No device, and no sleep.
abbrev pub sleep_defaults : SleepOptions
sleep_defaults = record { path = []; msleep_length = 0 }

module _ {S : Type 0} (step : Env S) where
  -- From the setup of the request on; the time that is taken and printed is left out. The result is
  -- the exit status.
  pub submit_sleep : ℤ → ℕ → M S ℤ
  submit_sleep dev length = do
    req ← lift (sleep_request dev length)
    status ← cs_queue_compute_request step (some req)
    pure (if is_zero status then pos 0 else pos 1)

  -- From `calloc` on, which tells whether the request could be allocated.
  pub sleep_opened : Bool → ℕ → Opened → M S ℤ
  sleep_opened calloc length quit = pure (pos 1)
  sleep_opened calloc length (opened dev word lines) =
      if calloc then submit_sleep dev length else pure (pos 1)

  -- The body behind the options.
  pub sleep_device_for : (List ℕ → List ℕ) → Locals → Bool → SleepOptions → M S ℤ
  sleep_device_for basename locals calloc o = if length o.path == 0 then pure (negsuc 0) else (do
    session ← open_session step basename o.path locals
    sleep_opened calloc o.msleep_length session)

  pub sleep_main : (List ℕ → ℕ) → (List ℕ → List ℕ) → Locals → Bool → List SleepFlag → M S ℤ
  sleep_main strtoul basename locals calloc flags =
      elim (parse_sleep strtoul sleep_defaults flags) [
        | none ↦ pure (negsuc 0)
        | some o ↦ sleep_device_for basename locals calloc o
      ]
