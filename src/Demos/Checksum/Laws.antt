-- ===== src/Demos/Checksum/Laws.antt =====
-- The checksum demo of host/demos/checksum/checksum.c as a whole, with its local for the function's id.
use nvme_csd.Base.{ℕ, ◌≡◌, ◌⊎◌, ℤ, pos, negsuc, is_zero, List, some, true}
use nvme_csd.Cs.Sys.{Machine, Env, admin_passthru}
use nvme_csd.Cs.Types.{checksum, has_function}
use nvme_csd.Cs.Tsp.Function.{function_command}
use nvme_csd.Cs.Utils.{Line}
use nvme_csd.Demos.Session.{Locals, Opened, opened, open_session}
use nvme_csd.Demos.Checksum.{Outcome, exited}

-- The outcome is a failure, with status -1 or 1.
abbrev pub Fails : {S : Type 0} → Outcome → Machine S → Type 0
Fails out m = (out ≡ exited (negsuc 0)) ⊎ (out ≡ exited (pos 1))

-- The session offers checksums, and its device accepts the lookup of their function.
pub record IsFound {S : Type 0} (step : Env S) (session : Opened) (m : Machine S) : Type 0 where
  pub dev : ℤ
  pub word : ℕ
  pub lines : List Line
  pub is_opened : session ≡ opened dev word lines
  pub offered : has_function word checksum ≡ true
  pub accepted : is_zero (step (admin_passthru (function_command dev 256 0)) m.env).0.ret ≡ true

-- The session on a path is of that kind.
pub record Finds {S : Type 0} (step : Env S) (basename : List ℕ → List ℕ) (locals : Locals)
    (path : List ℕ) (m : Machine S) : Type 0 where
  pub session : Opened
  pub m₁ : Machine S
  pub opens : open_session step basename path locals m ≡ some (session, m₁)
  pub is_found : IsFound step session m₁
