-- ===== src/Cs/Query/Laws.antt =====
-- What the queries of host/snia_cs_api/cs_api_nvme_tsp.c write to their callers.
use nvme_csd.Base.{
  ℕ, false, refl, ◌≤◌, ◌<◌, ◌^◌, ◌≡◌, ℤ, pos, is_negative, is_zero, to_u64, List, none, some, true,
  ◌||◌, length, ltb, if◌then◌else◌,
}
use nvme_csd.Cs.Sys.{Machine, Env, Fills, admin_passthru, pure}
use nvme_csd.Cs.Sys.Trace.{Ensures, Ensures-bind, Ensures-if, IsQuiet}
use nvme_csd.Cs.Types.{
  CsStatus, cs_invalid_handle, cs_invalid_length, cs_device_not_available, sizeof_csx_properties,
  is_success, select_function,
}
use nvme_csd.Cs.Tsp.{device_has_cs, strcmp_eq, get_function_id, passthru}
use nvme_csd.Cs.Tsp.Steps.{device_has_cs-IsQuiet}
use nvme_csd.Cs.Tsp.Properties.{IsWithin, HoldsOf, HoldsOf-get_properties, HoldsOf-IsWithin}
use nvme_csd.Cs.Tsp.Function.{function_command, get_function_id_overflow}
use nvme_csd.Cs.Query.{query_properties, cs_query_device_properties, cs_get_function, checksum_name}

module _ {S : Type 0} (step : Env S) (fills : Fills step) where
  HoldsOf-query_properties :
      (Q : CsStatus × List ℕ → Type 0) (dev : ℤ) (len : ℕ) (props : List ℕ) (m : Machine S)
      → len < 2 ^ 31
      → len ≤ length props
      → HoldsOf step len props Q
      → Ensures (λ r m'. Q r) (query_properties step dev (some (pos len)) (some props) m)
  unfolding query_properties
  HoldsOf-query_properties Q dev len props m small room h =
      let P = λ (r : CsStatus × List ℕ) (m' : Machine S). Q r in
      Ensures-if P (is_negative (pos len) || ltb (to_u64 (pos len)) sizeof_csx_properties) _ _ m
        (λ short. h.refused cs_invalid_length (cc))
        (λ enough. HoldsOf-get_properties step fills Q dev len props m small room h)

  pub HoldsOf-cs_query_device_properties :
      (Q : CsStatus × List ℕ → Type 0) (dev : ℤ) (len : ℕ) (props : List ℕ) (m : Machine S)
      → len < 2 ^ 31
      → len ≤ length props
      → HoldsOf step len props Q
      → Ensures (λ r m'. Q r) (cs_query_device_properties step dev (some (pos len)) (some props) m)
  unfolding cs_query_device_properties
  HoldsOf-cs_query_device_properties Q dev len props m small room h =
      let P = λ (r : CsStatus × List ℕ) (m' : Machine S). Q r in
      Ensures-if P (is_negative dev) _ _ m (λ bad. h.refused cs_invalid_handle (cc))
        (λ good.
          Ensures-bind (λ has m'. IsQuiet m m') P (device_has_cs step dev)
            (λ has.
              if has
              then query_properties step dev (some (pos len)) (some props)
              else pure (cs_device_not_available, props))
            m (device_has_cs-IsQuiet step dev m)
            (λ has m₁ quiet.
              Ensures-if P has _ _ m₁
                (λ compute. HoldsOf-query_properties Q dev len props m₁ small room h)
                (λ plain. h.refused cs_device_not_available (cc))))

  -- For every device that fills 4096 bytes, with a length that is an `int` and not negative, and
  -- memory of at least `*Length` bytes at `Buffer`: the query never writes at or beyond
  -- `Buffer + *Length` nor outside the memory, and it reports success only if the structure
  -- with its first CSE, and every CSE that it counts, as far as the 4096 bytes of the device hold
  -- it, ends within `*Length` bytes.
  pub cs_query_device_properties-IsWithin :
      (dev : ℤ) (len : ℕ) (props : List ℕ) (m : Machine S)
      → len < 2 ^ 31
      → len ≤ length props
      → Ensures
          (λ r m'. IsWithin len props r)
          (cs_query_device_properties step dev (some (pos len)) (some props) m)
  cs_query_device_properties-IsWithin dev len props m small room =
      HoldsOf-cs_query_device_properties (IsWithin len props) dev len props m small room
        (HoldsOf-IsWithin step fills len props room)

module _ {S : Type 0} (step : Env S) (cse : ℤ) (name fid : List ℕ) (m : Machine S)
    (room : length fid < 8) where
  -- Where the memory at `FunctionId` is shorter than 8 bytes, as a `CS_FUNCTION_ID` of 4 bytes is,
  -- a lookup of "Checksum" that the device accepts writes outside it.
  pub cs_get_function_overflow :
      strcmp_eq name checksum_name ≡ some true
      → is_zero (step (admin_passthru (function_command cse 256 0)) m.env).0.ret ≡ true
      → cs_get_function step cse (some name) (some fid) m ≡ none
  unfolding cs_get_function
  cs_get_function_overflow checksum accepted =
      rw checksum (get_function_id_overflow step cse fid m room accepted)

  -- One that the device does not accept fails.
  pub cs_get_function_refused :
      strcmp_eq name checksum_name ≡ some true
      → is_zero (step (admin_passthru (function_command cse 256 0)) m.env).0.ret ≡ false
      → Ensures (λ r m'. is_success r.0 ≡ false) (cs_get_function step cse (some name) (some fid) m)
  unfolding cs_get_function get_function_id passthru select_function is_success
  cs_get_function_refused checksum refused = rw (checksum, refused) refl
