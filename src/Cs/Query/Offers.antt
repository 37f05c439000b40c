-- ===== src/Cs/Query/Offers.antt =====
-- What a device says it can compute goes through `csQueryDeviceCapabilities` of
-- host/snia_cs_api/cs_api_nvme_tsp.c unchanged.
use nvme_csd.Base.{
  ℕ, ◌^◌, ◌≤◌, ◌<◌, ◌≡◌, ap, ◌∙◌, arith, pos, is_zero, List, ◌++◌, some, true, length, take, blit,
  field, le_bytes, le_value-le_bytes_eight,
}
use nvme_csd.Cs.Sys.{Machine, Env, admin_passthru, after}
use nvme_csd.Cs.Types.{CsFunction, cs_success, has_function}
use nvme_csd.Cs.Types.Capabilities.{
  Capabilities, capabilities_word, capabilities_word_bound, has_function-capabilities_word,
}
use nvme_csd.Cs.Tsp.{get_capabilities, passthru}
use nvme_csd.Cs.Tsp.Steps.{copy_out-fits}
use nvme_csd.Cs.Query.{cs_query_device_capabilities}
use nvme_csd.Cs.Query.Capabilities.{capabilities_command}

-- Where a device has the capabilities `c` and accepts to be asked for them, and there are at least 8
-- bytes of memory at `Caps`: the query succeeds, and what it leaves has just the kinds of function
-- that `c` has.
pub has_function-cs_query_device_capabilities :
    {S : Type 0} (step : Env S) (dev : ℕ) (caps : List ℕ) (m : Machine S) (c : Capabilities)
    (rest : List ℕ)
    → c.custom_type < 2 ^ 48
    → 8 ≤ length caps
    → is_zero (step (admin_passthru (capabilities_command (pos dev))) m.env).0.ret ≡ true
    → (step (admin_passthru (capabilities_command (pos dev))) m.env).0.buffer
      ≡ le_bytes 8 (capabilities_word c) ++ rest
    → (memory : List ℕ) × (m' : Machine S) × (cs_query_device_capabilities step
          (pos dev)
          (some caps)
          m
        ≡ some ((cs_success, memory), m'))
      × ((f : CsFunction) → has_function (field 0 8 memory) f ≡ c.has f)
unfolding cs_query_device_capabilities get_capabilities passthru
has_function-cs_query_device_capabilities step dev caps m c rest small room accepted says =
    let call = admin_passthru (capabilities_command (pos dev)) in
    let m₁ = after step call m in
    let w = capabilities_word c in
    let buffer = (step call m.env).0.buffer in
    let long : 8 ≤ length buffer = omega (arith, ap length says) in
    let word : field 0 8 (blit caps 0 (take 8 buffer)) ≡ w =
      ap (λ (l : List ℕ). field 0 8 (blit caps 0 (take 8 l))) says
      ∙ le_value-le_bytes_eight w (omega (arith, capabilities_word_bound c small)) in
    (
      blit caps 0 (take 8 buffer),
      m₁,
      rw accepted (copy_out-fits caps buffer 8 cs_success m₁ room long),
      λ f. ap (λ (n : ℕ). has_function n f) word ∙ has_function-capabilities_word c f,
    )
