-- ===== src/Cs/Query/Capabilities.antt =====
-- What `csQueryDeviceCapabilities` of host/snia_cs_api/cs_api_nvme_tsp.c writes.
use nvme_csd.Base.{
  ℕ, ◌≤◌, ◌≡◌, ◌≢◌, ◌⊎◌, inl, inr, refl, arith, ℤ, is_negative, is_zero, List, [], some, length,
  take, blit,
}
use nvme_csd.Cs.Sys.{Machine, Env, Fills, AdminCommand, admin_passthru, after}
use nvme_csd.Cs.Sys.Trace.{Ensures, Ensures-if}
use nvme_csd.Cs.Types.{CsStatus, cs_success}
use nvme_csd.Cs.Tsp.{get_capabilities, passthru, tsp_cs_get, tsp_cs_caps, buffer_len}
use nvme_csd.Cs.Tsp.Steps.{copy_out-fits}
use nvme_csd.Cs.Query.{cs_query_device_capabilities}

-- The command that asks a device for its capabilities.
abbrev pub capabilities_command : ℤ → AdminCommand
capabilities_command fd = record {
  fd = fd;
  cdw10 = tsp_cs_get;
  cdw11 = tsp_cs_caps;
  cdw12 = 0;
  cdw13 = 0;
  data_len = buffer_len;
  payload = [];
  timeout_ms = 0;
}

module _ {S : Type 0} (step : Env S) (fills : Fills step) (dev : ℤ) (caps : List ℕ)
    (m : Machine S) where
  -- Either the device was asked once and accepted, and the first 8 bytes that it gave are written to
  -- the memory; or the memory is as it was, and an error is returned.
  abbrev pub IsAnswered : CsStatus × List ℕ → Machine S → Type 0
  IsAnswered r m' =
      ((r.0 ≡ cs_success)
        × (r.1
            ≡ blit caps 0
                (take 8 (step (admin_passthru (capabilities_command dev)) m.env).0.buffer))
        × (m' ≡ after step (admin_passthru (capabilities_command dev)) m))
      ⊎ ((r.0 ≢ cs_success) × (r.1 ≡ caps))

  -- For every device that fills 4096 bytes, and memory of at least 8 bytes at `Caps`: the query is
  -- defined, writes the first 8 bytes of the device's answer exactly if it reports success, and else
  -- nothing.
  pub cs_query_device_capabilities_lem :
      8 ≤ length caps → Ensures IsAnswered (cs_query_device_capabilities step dev (some caps) m)
  unfolding cs_query_device_capabilities get_capabilities passthru
  cs_query_device_capabilities_lem room =
      let c = admin_passthru (capabilities_command dev) in
      let reply = (step c m.env).0 in
      Ensures-if IsAnswered (is_negative dev) _ _ m (λ bad. inr (cc, refl))
        (λ good.
          Ensures-if IsAnswered (is_zero reply.ret) _ _ (after step c m)
            (λ accepted.
              rw
                (copy_out-fits caps reply.buffer 8 cs_success (after step c m) room
                  (omega (arith, fills (capabilities_command dev) m.env)))
                (inl (refl, refl, refl)))
            (λ failed. inr (cc, refl)))
