-- ===== src/Demos/Sleep/Laws.antt =====
-- The sleep demo of host/demos/sleep/sleep.c as a whole: from the command line to the device.
use nvme_csd.Base.{
  [], ℕ, ◌≡◌, ◌⊎◌, ℤ, pos, negsuc, is_zero, to_u32, to_int, List, ◌∷◌, some, Bool, true, false,
  length, if◌then◌else◌,
}
use nvme_csd.Cs.Sys.{Machine, Env, AdminCommand, admin_passthru, Reply}
use nvme_csd.Cs.Tsp.{tsp_cs_compute}
use nvme_csd.Demos.Session.{Locals, Opened, quit, opened, open_session}
use nvme_csd.Cs.Types.Request.{request_bytes}
use nvme_csd.Demos.Request.Wire.{sleep_call}
use nvme_csd.Demos.Sleep.{SleepOptions}

-- After `before`, the one thing that happened is that the device was sent a compute request, function
-- 100 with one argument, the time to sleep, and accepted it or not.
pub record IsAsked {S : Type 0} (dev : ℤ) (msleep : ℕ) (before : Machine S) (accepted : Bool)
    (m : Machine S) : Type 0 where
  pub command : AdminCommand
  pub reply : Reply
  pub last : m.trace ≡ record { call = admin_passthru command; reply = reply } ∷ before.trace
  pub compute : command.cdw10 ≡ tsp_cs_compute
  pub device : command.fd ≡ to_int (to_u32 dev)
  pub payload : command.payload ≡ request_bytes (sleep_call dev msleep) []
  pub answer : is_zero reply.ret ≡ accepted

-- What follows a session: nothing and status 1 where it was not opened or there is no memory for the
-- request, and else the request, with status 0 where the device accepts it and 1 where not.
abbrev pub Follows : {S : Type 0} → Bool → ℕ → Opened → Machine S → ℤ → Machine S → Type 0
Follows calloc msleep quit before status m = (status ≡ pos 1) × (m ≡ before)
Follows false msleep (opened dev word lines) before status m = (status ≡ pos 1) × (m ≡ before)
Follows true msleep (opened dev word lines) before status m =
    (accepted : Bool) × IsAsked dev msleep before accepted m
    × (status ≡ (if accepted then pos 0 else pos 1))

module _ {S : Type 0} (step : Env S) where
  -- Status -1 where no device is named; and else what follows the session.
  abbrev pub Ends :
      (List ℕ → List ℕ) → Locals → Bool → SleepOptions → Machine S → ℤ → Machine S → Type 0
  Ends basename locals calloc o m status m' =
      ((length o.path ≡ 0) × (status ≡ negsuc 0))
      ⊎ ((session : Opened) × (before : Machine S) × (open_session step basename o.path locals m
            ≡ some (session, before))
          × Follows calloc o.msleep_length session before status m')
