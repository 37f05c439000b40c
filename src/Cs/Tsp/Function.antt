-- ===== src/Cs/Tsp/Function.antt =====
-- What `tsp_nvme_get_function_id` of host/snia_cs_api/cs_api_nvme_tsp.c sends and writes.
use nvme_csd.Base.{ℕ, ◌<◌, ◌≡◌, ℤ, is_zero, true, List, [], none, length, not_le→leb}
use nvme_csd.Cs.Sys.{Machine, Env, AdminCommand, admin_passthru}
use nvme_csd.Cs.Types.{checksum, select_function}
use nvme_csd.Cs.Tsp.{get_function_id, passthru, copy_out, buffer_len, tsp_cs_get, tsp_cs_fun}

-- The lookup of a function by the two halves of its bit selection.
abbrev pub function_command : ℤ → ℕ → ℕ → AdminCommand
function_command fd low high = record {
  fd = fd;
  cdw10 = tsp_cs_get;
  cdw11 = tsp_cs_fun;
  cdw12 = low;
  cdw13 = high;
  data_len = buffer_len;
  payload = [];
  timeout_ms = 0;
}

module _ {S : Type 0} (step : Env S) (cse : ℤ) (fid : List ℕ) (m : Machine S) where
  pub get_function_id_overflow :
      length fid < 8
      → is_zero (step (admin_passthru (function_command cse 256 0)) m.env).0.ret ≡ true
      → get_function_id step cse (select_function checksum) fid m ≡ none
  unfolding get_function_id passthru select_function copy_out
  get_function_id_overflow room accepted = rw (accepted, not_le→leb 8 (length fid) room)
