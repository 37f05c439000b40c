-- ===== src/Cs/Query/Full.antt =====
-- A query of properties that a device answers, with room for the answer, in
-- host/snia_cs_api/cs_api_nvme_tsp.c.
use nvme_csd.Base.{
  ℕ, ◌^◌, ◌≤◌, ◌<◌, ◌≡◌, ◌∙◌, arith, pos, is_zero, to_u64, List, some, Bool, true, false, length,
  take, blit, ltb, if◌then◌else◌, not_lt→ltb,
}
use nvme_csd.Cs.Sys.{Machine, Env, Fills, admin_passthru, after}
use nvme_csd.Cs.Sys.Trace.{bind_known}
use nvme_csd.Cs.Sys.{pure}
use nvme_csd.Cs.Types.{cs_device_not_available, cs_success, num_cses}
use nvme_csd.Cs.Tsp.{device_has_cs, get_properties, required_size, passthru}
use nvme_csd.Cs.Tsp.Steps.{copy_out-fits}
use nvme_csd.Cs.Tsp.Properties.{properties_command, required_size_bounds}
use nvme_csd.Cs.Query.{query_properties, cs_query_device_properties}

pub required_size_full : (n : ℕ) → 80 < n → required_size n ≡ 4096
unfolding required_size
required_size_full n h = ground arith

-- What the device tells of its properties.
abbrev pub told : {S : Type 0} → Env S → ℕ → Machine S → List ℕ
told step d m₁ = (step (admin_passthru (properties_command (pos d))) m₁.env).0.buffer

-- The device has compute and accepts to be asked for its properties, and the caller has room for them.
pub record Answered {S : Type 0} (step : Env S) (d len : ℕ) (props : List ℕ) (m m₁ : Machine S)
    : Type 0 where
  pub small : len < 2 ^ 31
  pub room : len ≤ length props
  pub has : device_has_cs step (pos d) m ≡ some (true, m₁)
  pub accepted : is_zero (step (admin_passthru (properties_command (pos d))) m₁.env).0.ret ≡ true
  pub fits : required_size (num_cses (told step d m₁)) ≤ len

-- What the caller's memory holds then.
abbrev pub copied : {S : Type 0} → Env S → ℕ → List ℕ → Machine S → List ℕ
copied step d props m₁ =
    blit props 0 (take (required_size (num_cses (told step d m₁))) (told step d m₁))

module _ {S : Type 0} (step : Env S) (fills : Fills step) (d len : ℕ) (props : List ℕ)
    (m m₁ : Machine S) (o : Answered step d len props m m₁) where
  get_properties_full :
      get_properties step (pos d) (pos len) props m₁
      ≡ some (
        (cs_success, copied step d props m₁),
        after step (admin_passthru (properties_command (pos d))) m₁,
      )
  unfolding get_properties passthru
  get_properties_full =
      let required = required_size (num_cses (told step d m₁)) in
      let filled : length (told step d m₁) ≡ 4096 = fills (properties_command (pos d)) m₁.env in
      let bounds = required_size_bounds (num_cses (told step d m₁)) in
      let enough : ltb (to_u64 (pos len)) required ≡ false =
        not_lt→ltb (to_u64 (pos len)) required (omega (arith, o.small, o.fits)) in
      rw (o.accepted, enough)
        (copy_out-fits props (told step d m₁) required cs_success
          (after step (admin_passthru (properties_command (pos d))) m₁)
          (omega (arith, o.room, o.fits)) (omega (arith, filled, bounds.0)))

  -- The query succeeds.
  pub query_full :
      cs_query_device_properties step (pos d) (some (pos len)) (some props) m
      ≡ some (
        (cs_success, copied step d props m₁),
        after step (admin_passthru (properties_command (pos d))) m₁,
      )
  unfolding cs_query_device_properties query_properties
  query_full =
      let bounds = required_size_bounds (num_cses (told step d m₁)) in
      let long : ltb (to_u64 (pos len)) 108 ≡ false =
        not_lt→ltb (to_u64 (pos len)) 108 (omega (arith, o.small, o.fits, bounds.0)) in
      bind_known (device_has_cs step (pos d))
        (λ (b : Bool).
          if b
          then query_properties step (pos d) (some (pos len)) (some props)
          else pure (cs_device_not_available, props))
        m true m₁ o.has
      ∙ rw long get_properties_full
