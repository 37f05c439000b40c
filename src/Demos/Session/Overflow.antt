-- ===== src/Demos/Session/Overflow.antt =====
-- A device with more CSEs than fit into the buffers of the demos of host/demos.
use nvme_csd.Base.{ℕ, ◌<◌, ◌≡◌, pos, is_zero, List, some, true, length}
use nvme_csd.Cs.Sys.{Machine, Env, admin_passthru}
use nvme_csd.Cs.Types.{num_cses}
use nvme_csd.Cs.Tsp.{device_has_cs}
use nvme_csd.Cs.Tsp.Properties.{properties_command}
use nvme_csd.Cs.Query.Full.{told}

-- The device counts more than 80 CSEs, and the memory is a buffer of the demos.
pub record Overfull {S : Type 0} (step : Env S) (d : ℕ) (props : List ℕ) (m m₁ : Machine S)
    : Type 0 where
  pub size : length props ≡ 4096
  pub has : device_has_cs step (pos d) m ≡ some (true, m₁)
  pub accepted : is_zero (step (admin_passthru (properties_command (pos d))) m₁.env).0.ret ≡ true
  pub many : 80 < num_cses (told step d m₁)
