-- ===== src/Cs/Query.antt =====
-- Queries of a device, and of a function by its name, in host/snia_cs_api/cs_api_nvme_tsp.c.
pub mod Laws
pub mod Capabilities
pub mod Offers
pub mod Full
pub mod Described
use nvme_csd.Base.{
  ℕ, ℤ, pos, is_negative, to_u64, eqb_ℤ, List, [], ◌∷◌, Option, none, some, Bool, true, false, not,
  ◌||◌, ltb, if◌then◌else◌,
}
use nvme_csd.Cs.Sys.{M, pure, ◌>>=◌, lift, Env}
use nvme_csd.Cs.Types.{
  CsStatus, cs_success, cs_device_not_available, cs_invalid_handle, cs_invalid_arg,
  cs_invalid_length, cs_invalid_option, sizeof_csx_properties, checksum, select_function,
}
use nvme_csd.Cs.Tsp.{strcmp_eq, device_has_cs, get_properties, get_capabilities, get_function_id}
use nvme_csd.Cs.Discovery.{memory_of}

-- `__CS_PLACE_HOLDER_DEV_HANDLE`
abbrev pub place_holder_dev_handle : ℤ
place_holder_dev_handle = pos 42

-- "Checksum", in bytes.
abbrev pub checksum_name : List ℕ
checksum_name = 67 ∷ 104 ∷ 101 ∷ 99 ∷ 107 ∷ 115 ∷ 117 ∷ 109 ∷ []

module _ {S : Type 0} (step : Env S) where
  -- `Context` is not used. The memory at `FunctionId` is returned with the status.
  pub cs_get_function : ℤ → Option (List ℕ) → Option (List ℕ) → M S (CsStatus × List ℕ)
  cs_get_function cse none fid = pure (cs_invalid_arg, memory_of fid)
  cs_get_function cse (some name) none = pure (cs_invalid_arg, [])
  cs_get_function cse (some name) (some fid) = do
    same ← lift (strcmp_eq name checksum_name)
    if same
        then get_function_id step cse (select_function checksum) fid
        else pure (cs_invalid_option, fid)

  -- The tests behind the one of the device, in their order.
  pub query_properties : ℤ → Option ℤ → Option (List ℕ) → M S (CsStatus × List ℕ)
  query_properties dev none props = pure (cs_invalid_arg, memory_of props)
  query_properties dev (some length) props =
      if is_negative length || ltb (to_u64 length) sizeof_csx_properties
      then pure (cs_invalid_length, memory_of props)
      else elim props [
        | none ↦ pure (cs_invalid_arg, [])
        | some memory ↦ get_properties step dev length memory
      ]

  pub cs_query_device_properties : ℤ → Option ℤ → Option (List ℕ) → M S (CsStatus × List ℕ)
  cs_query_device_properties dev length props =
      if is_negative dev then pure (cs_invalid_handle, memory_of props) else (do
        has ← device_has_cs step dev
        if has
            then query_properties dev length props
            else pure (cs_device_not_available, memory_of props))

  pub cs_query_device_capabilities : ℤ → Option (List ℕ) → M S (CsStatus × List ℕ)
  cs_query_device_capabilities dev caps =
      if is_negative dev then pure (cs_invalid_handle, memory_of caps) else elim caps [
        | none ↦ pure (cs_invalid_arg, [])
        | some memory ↦ get_capabilities step dev memory
      ]

-- A stub: nothing is written to `FunctionInfo`, which is told by whether it is not null.
pub cs_query_device_for_compute_list : ℤ → Bool → CsStatus
cs_query_device_for_compute_list dev function_info =
    if not (eqb_ℤ dev place_holder_dev_handle)
    then cs_invalid_handle
    else if function_info
    then cs_success
    else cs_invalid_arg
