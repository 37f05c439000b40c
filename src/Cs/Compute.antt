-- ===== src/Cs/Compute.antt =====
-- Compute requests of host/snia_cs_api/cs_api_nvme_tsp.c: their arguments, and their submission.
pub mod Laws
pub mod Args
use nvme_csd.Base.{ℕ, ℤ, pos, List, [], ◌∷◌, ◌++◌, Option, none, some, memcpy, le_bytes}
use nvme_csd.Cs.Sys.{M, pure, Env}
use nvme_csd.Cs.Types.{
  status_code, cs_invalid_arg, ArgType, arg_type_code, cs_afdm_type, cs_32bit_value_type,
  cs_64bit_value_type,
}
use nvme_csd.Cs.Tsp.{compute_operation}

-- What stands behind `Type` in a call of `csHelperSetComputeArg`, in the order of `va_arg`.
abbrev pub VaList : Type 0
VaList = List ℕ

-- The `switch`: the member of the union that the type sets, at its offset in `CsComputeArg`.
-- `none` is undefined behaviour: an argument that was not passed, or memory outside the object.
unfoldable pub set_value : ArgType → VaList → List ℕ → Option (List ℕ)
set_value cs_afdm_type (handle ∷ offset ∷ more) arg =
    memcpy arg 4 (le_bytes 8 handle ++ le_bytes 8 offset) 16
set_value cs_afdm_type (handle ∷ []) arg = none
set_value cs_afdm_type [] arg = none
set_value cs_32bit_value_type (value ∷ more) arg = memcpy arg 4 (le_bytes 4 value) 4
set_value cs_32bit_value_type [] arg = none
set_value cs_64bit_value_type (value ∷ more) arg = memcpy arg 4 (le_bytes 8 value) 8
set_value cs_64bit_value_type [] arg = none
set_value _ values arg = some arg

-- The memory at `ArgPtr` after the call; a null pointer is left alone.
unfoldable pub cs_helper_set_compute_arg :
    Option (List ℕ) → ArgType → VaList → Option (Option (List ℕ))
cs_helper_set_compute_arg none type values = some none
cs_helper_set_compute_arg (some arg) type values =
    elim (memcpy arg 0 (le_bytes 4 (arg_type_code type)) 4) [
      | none ↦ none
      | some typed ↦ elim (set_value type values typed) [
        | none ↦ none
        | some arg' ↦ some (some arg')
      ]
    ]

module _ {S : Type 0} (step : Env S) where
  -- `xxDoComputeRequest`
  pub do_compute_request : List ℕ → M S ℤ
  do_compute_request = compute_operation step

  -- `Req` is the memory from the request on. The context, the callback, the event and the
  -- completion value are not used. The result is an `int`.
  pub cs_queue_compute_request : Option (List ℕ) → M S ℤ
  cs_queue_compute_request none = pure (pos (status_code cs_invalid_arg))
  cs_queue_compute_request (some req) = do_compute_request req
