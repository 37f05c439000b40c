-- ===== src/Cs/Discovery.antt =====
-- Discovery and opening of devices and engines in host/snia_cs_api/cs_api_nvme_tsp.c. A pointer that
-- may be null is an option; for an output it holds the memory from the pointer on.
pub mod Laws
pub mod Calls
pub mod Engine
use nvme_csd.Base.{
  ℕ, ◌+◌, ◌*◌, ◌^◌, ℤ, pos, negsuc, is_zero, is_negative, to_u64, eqb_ℤ, List, [], ◌∷◌, ◌++◌,
  Option, none, some, Bool, true, false, not, ◌&&◌, ◌||◌, length, memcpy, le_bytes, ltb, leb, ◌==◌,
  if◌then◌else◌,
}
use nvme_csd.Cs.Sys.{
  M, pure, ◌>>=◌, ◌>>◌, lift, Env, sys, nvme_open, fstat, close, open_dev_mem, mmap, FileKind,
  other_file, char_device, block_device,
}
use nvme_csd.Cs.Types.{
  CsStatus, cs_success, cs_could_not_map_memory, cs_device_not_available, cs_entity_not_on_device,
  cs_enxio, cs_invalid_handle, cs_invalid_arg, cs_invalid_length, cs_invalid_option,
  cs_not_enough_memory, cs_no_such_entity_exists, status_code, ArgType, sizeof_csx_properties,
  checksum, select_function,
}
use nvme_csd.Cs.Tsp.{
  strcmp_eq, device_has_cs, get_properties, get_capabilities, get_function_id, allocate_memory,
  compute_operation, copy_out,
}

-- `__CS_PLACE_HOLDER_CSE_NAME`, "Simulated_CSE".
abbrev pub place_holder_cse_name : List ℕ
place_holder_cse_name = 83 ∷ 105 ∷ 109 ∷ 117 ∷ 108 ∷ 97 ∷ 116 ∷ 101 ∷ 100 ∷ 95 ∷ 67 ∷ 83 ∷ 69 ∷ []

-- `__CS_PLACE_HOLDER_CSE_HANDLE`
abbrev pub place_holder_cse_handle : ℤ
place_holder_cse_handle = pos 43

-- The memory behind a pointer that may be null.
abbrev pub memory_of : Option (List ℕ) → List ℕ
memory_of none = []
memory_of (some bytes) = bytes

-- `!is_chardev(s) && !is_blkdev(s)`
pub is_no_device : FileKind → Bool
is_no_device char_device = false
is_no_device block_device = false
is_no_device other_file = true

module _ {S : Type 0} (step : Env S) where
  -- `close(fd); return status;`
  pub close_with : ℤ → CsStatus × List ℕ → M S (CsStatus × List ℕ)
  close_with fd result = sys step (close fd) >> pure result

  -- The last part of `csGetCSxFromPath`: the name and its NUL are copied if there is room.
  pub copy_name : ℤ → List ℕ → ℕ → List ℕ → M S (CsStatus × List ℕ)
  copy_name fd name len dev_name =
      if ltb len (length name + 1) then close_with fd (cs_invalid_length, dev_name) else (do
        copied ← copy_out dev_name (name ++ (0 ∷ [])) (length name + 1) cs_success
        close_with fd copied)

  -- `csGetCSxFromPath` from the opened descriptor on.
  pub check_device : ℤ → List ℕ → ℕ → List ℕ → M S (CsStatus × List ℕ)
  check_device fd name len dev_name = do
    st ← sys step (fstat fd)
    if is_negative st.ret || is_no_device st.kind then close_with fd (cs_enxio, dev_name) else (do
      has ← device_has_cs step fd
      if has
          then copy_name fd name len dev_name
          else close_with fd (cs_entity_not_on_device, dev_name))

  -- `basename` is the C library's. The memory at `DevName` is returned with the status.
  unfoldable pub cs_get_csx_from_path :
      (List ℕ → List ℕ) → Option (List ℕ) → Option ℕ → Option (List ℕ) → M S (CsStatus × List ℕ)
  cs_get_csx_from_path basename (some path) (some len) (some dev_name) = do
    let name = basename path
    opened ← sys step (nvme_open name)
    if is_negative opened.ret
        then pure (cs_no_such_entity_exists, dev_name)
        else check_device opened.ret name len dev_name
  cs_get_csx_from_path basename none len dev_name = pure (cs_invalid_arg, memory_of dev_name)
  cs_get_csx_from_path basename (some path) none dev_name =
      pure (cs_invalid_arg, memory_of dev_name)
  cs_get_csx_from_path basename (some path) (some len) none = pure (cs_invalid_arg, [])

  -- The handle is the descriptor; `none` where `DevHandle` is not written.
  pub cs_open_csx : Option (List ℕ) → Bool → M S (CsStatus × Option ℤ)
  cs_open_csx (some name) true = do
    opened ← sys step (nvme_open name)
    if is_negative opened.ret
        then pure (cs_no_such_entity_exists, none)
        else pure (cs_success, some opened.ret)
  cs_open_csx (some name) false = pure (cs_invalid_arg, none)
  cs_open_csx none handle = pure (cs_invalid_arg, none)

-- The name of the one engine there is, with its NUL. The code writes through `CSEName` without a
-- test: `none` is undefined behaviour.
pub cs_get_cse_from_csx : ℤ → Option ℕ → Option (List ℕ) → Option (CsStatus × List ℕ)
cs_get_cse_from_csx handle none cse_name = some (cs_invalid_arg, memory_of cse_name)
cs_get_cse_from_csx handle (some len) cse_name =
    let size = length place_holder_cse_name + 1 in
    if is_negative handle
    then some (cs_invalid_arg, memory_of cse_name)
    else if ltb len size
    then some (cs_invalid_length, memory_of cse_name)
    else elim cse_name [
      | none ↦ none
      | some memory ↦ elim (memcpy memory 0 (place_holder_cse_name ++ (0 ∷ [])) size) [
        | none ↦ none
        | some memory' ↦ some (cs_success, memory')
      ]
    ]

-- What follows the comparison with the name of the one engine; the handle is written only for it.
abbrev pub answer_of : Option Bool → Option (CsStatus × Option ℤ)
answer_of none = none
answer_of (some true) = some (cs_success, some place_holder_cse_handle)
answer_of (some false) = some (cs_entity_not_on_device, none)

pub cs_open_cse : List ℕ → Option (CsStatus × Option ℤ)
cs_open_cse cse_name = answer_of (strcmp_eq cse_name place_holder_cse_name)
