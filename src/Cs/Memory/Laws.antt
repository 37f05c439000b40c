-- ===== src/Cs/Memory/Laws.antt =====
-- What the allocation of host/snia_cs_api/cs_api_nvme_tsp.c asks of the device, and leaves open.
use nvme_csd.Base.{ℕ, ◌≡◌, ◌≢◌, none, some, Bool, true}
use nvme_csd.Cs.Types.{cs_success}
use nvme_csd.Cs.Memory.{Allocated}

-- What an allocation reports is what it has written: a handle that is not null on success and
-- where only the mapping failed, and a mapping exactly if one was asked for and made.
pub record IsConsistent (vaddress : Bool) (r : Allocated) : Type 0 where
  pub success : r.status ≡ cs_success → (h : ℕ) × (r.mem_handle ≡ some h) × (h ≢ 0)
  pub mapped : (r.vaddress ≢ none → r.status ≡ cs_success)
  pub asked : r.status ≡ cs_success → vaddress ≡ true → r.vaddress ≢ none
