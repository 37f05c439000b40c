-- ===== src/Cs/Memory.antt =====
-- `csAllocMem` and `csFreeMem` of host/snia_cs_api/cs_api_nvme_tsp.c.
pub mod Laws
use nvme_csd.Base.{
  ℕ, ◌+◌, ◌*◌, not, ℤ, pos, negsuc, is_zero, is_negative, eqb_ℤ, Option, none, some, Bool, true,
  false, ltb, ◌||◌, if◌then◌else◌,
}
use nvme_csd.Cs.Sys.{M, pure, ◌>>=◌, ◌>>◌, Env, sys, Reply, close, open_dev_mem, mmap}
use nvme_csd.Cs.Types.{
  CsStatus, is_success, cs_success, cs_could_not_map_memory, cs_device_not_available,
  cs_invalid_arg, cs_not_enough_memory,
}
use nvme_csd.Cs.Tsp.{allocate_memory}

-- The status, and what is written through `MemHandle` and `VAddressPtr`, if anything is.
pub record Allocated : Type 0 where
  pub status : CsStatus
  pub mem_handle : Option ℕ
  pub vaddress : Option ℤ

-- A call that fails before it writes anything.
abbrev pub refused : CsStatus → Allocated
refused status = record { status = status; mem_handle = none; vaddress = none }

-- The largest size that is passed on to the device.
abbrev pub max_alloc : ℕ
max_alloc = 4096 * 1024

-- `Bytes <= 0` and `Bytes > 4096*1024`
pub is_empty : ℤ → Bool
is_empty bytes = is_negative bytes || is_zero bytes

unfoldable pub is_too_large : ℤ → Bool
is_too_large (pos n) = ltb max_alloc n
is_too_large (negsuc n) = false

module _ {S : Type 0} (step : Env S) where
  -- The part under `if (VAddressPtr)`. `MAP_FAILED` is -1; the descriptor is closed after the
  -- mapping, before its result is looked at.
  pub map_memory : ℤ → ℕ → M S Allocated
  map_memory bytes handle = do
    fd ← sys step open_dev_mem
    if is_negative fd.ret
        then pure
            (record { status = cs_could_not_map_memory; mem_handle = some handle; vaddress = none })
        else (do
          mapped ← sys step (mmap bytes fd.ret handle)
          _ ← sys step (close fd.ret)
          pure (
              if eqb_ℤ mapped.ret (negsuc 0)
              then record {
                status = cs_could_not_map_memory;
                mem_handle = some handle;
                vaddress = none;
              }
              else record {
                status = cs_success;
                mem_handle = some handle;
                vaddress = some mapped.ret;
              }))

  -- From the test of `MemHandle` on; the two pointers are told by whether they are not null.
  pub alloc_checked : ℤ → ℤ → Bool → Bool → M S Allocated
  alloc_checked dev bytes false vaddress = pure (refused cs_invalid_arg)
  alloc_checked dev bytes true vaddress = do
    (status, addr) ← allocate_memory step dev bytes
    if not (is_success status)
        then pure (refused status)
        else if vaddress
        then map_memory bytes addr
        else pure (record { status = cs_success; mem_handle = some addr; vaddress = none })

  -- `MemFlags` is not used.
  pub cs_alloc_mem : ℤ → ℤ → Bool → Bool → M S Allocated
  cs_alloc_mem dev bytes mem_handle vaddress =
      if is_empty bytes
      then pure (refused cs_invalid_arg)
      else if is_too_large bytes
      then pure (refused cs_not_enough_memory)
      else alloc_checked dev bytes mem_handle vaddress

-- Nothing is given back to the device.
pub cs_free_mem : {S : Type 0} → ℕ → M S CsStatus
cs_free_mem handle = pure cs_success
