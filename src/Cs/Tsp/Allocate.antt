-- ===== src/Cs/Tsp/Allocate.antt =====
-- What `tsp_allocate_memory` of host/snia_cs_api/cs_api_nvme_tsp.c asks and returns.
use nvme_csd.Base.{ℕ, ◌≡◌, ◌≢◌, refl, arith, ℤ, is_zero, to_u32, [], field, ◌==◌}
use nvme_csd.Cs.Sys.{Machine, after, Env, AdminCommand, admin_passthru}
use nvme_csd.Cs.Sys.Trace.{Ensures, Ensures-if}
use nvme_csd.Cs.Types.{CsStatus, cs_success}
use nvme_csd.Cs.Tsp.{allocate_memory, passthru, buffer_len, tsp_cs_allocate, tsp_cs_mem}

-- The request for `bytes` bytes of memory of the device.
abbrev pub allocate_command : ℤ → ℤ → AdminCommand
allocate_command fd bytes = record {
  fd = fd;
  cdw10 = tsp_cs_allocate;
  cdw11 = tsp_cs_mem;
  cdw12 = to_u32 bytes;
  cdw13 = 0;
  data_len = buffer_len;
  payload = [];
  timeout_ms = 0;
}

-- Success comes with an address that is not null.
abbrev pub IsGranted : CsStatus × ℕ → Type 0
IsGranted (status, addr) = (status ≡ cs_success → addr ≢ 0)

-- One command is sent, whatever comes of it.
pub allocate_memory_lem :
    {S : Type 0} (step : Env S) (fd bytes : ℤ) (m : Machine S)
    → Ensures
        (λ a m'. IsGranted a × (m' ≡ after step (admin_passthru (allocate_command fd bytes)) m))
        (allocate_memory step fd bytes m)
unfolding allocate_memory passthru
allocate_memory_lem {S} step fd bytes m =
    let c = admin_passthru (allocate_command fd bytes) in
    let r = (step c m.env).0 in
    let m₁ = after step c m in
    let Q = λ (a : CsStatus × ℕ) (m' : Machine S). IsGranted a × (m' ≡ m₁) in
    Ensures-if Q (is_zero r.ret) _ _ m₁
      (λ answered.
        Ensures-if Q (field 0 8 r.buffer == 0) _ _ m₁ (λ null. ((λ e. absurd (cc)), refl))
          (λ given. ((λ e. ground arith), refl)))
      (λ failed. ((λ e. absurd (cc)), refl))
