-- ===== src/Relay.antt =====
-- The relay commands of host/socket_relay/main.c, the functions named `tsp_nvme_..._relay`, and the
-- parts of the program that use them.
pub mod Threads
pub mod Open
pub mod Main
use nvme_csd.Base.{
  ℕ, ◌+◌, ◌-◌, ℤ, pos, negsuc, is_zero, to_u32, to_int, List, [], ◌++◌, Option, none, some, Bool,
  take, drop, replicate, memcpy_local, field, ltb, leb, length, min, ◌∷◌, ◌==◌, if◌then◌else◌,
}
use nvme_csd.Cs.Sys.{M, pure, ◌>>=◌, ◌>>◌, lift, Env, sys, admin_passthru}
use nvme_csd.Cs.Types.{CsStatus, cs_success, cs_error_in_execution}

-- `TSP_CDW10`, as far as the relay sends it.
abbrev pub tsp_cs_comm : ℕ
tsp_cs_comm = 64

abbrev pub tsp_cs_open_relay : ℕ
tsp_cs_open_relay = 128

abbrev pub tsp_cs_close_relay : ℕ
tsp_cs_close_relay = 129

-- `SIZE_4K`
abbrev pub size_4k : ℕ
size_4k = 4096

-- `sizeof(ai->node)` and `sizeof(ai->service)`
abbrev pub addr_field : ℕ
addr_field = 256

-- `strncpy` into a field of `n` bytes that are all zero: no NUL is left where the text fills it.
pub strncpy_zeros : ℕ → List ℕ → List ℕ
strncpy_zeros n text = take n text ++ replicate (n - length text) 0

-- The buffer of `tsp_nvme_open_relay`: an `AddrInfo` and zeros.
pub addr_info : List ℕ → List ℕ → List ℕ
addr_info node service =
    strncpy_zeros addr_field node
    ++ (strncpy_zeros addr_field service ++ replicate (size_4k - (addr_field + addr_field)) 0)

module _ {S : Type 0} (step : Env S) where
  pub open_relay : ℤ → List ℕ → List ℕ → M S ℤ
  open_relay fd node service = do
    r ← sys step (
        admin_passthru (record {
          fd = fd;
          cdw10 = tsp_cs_open_relay;
          cdw11 = 0;
          cdw12 = 0;
          cdw13 = 0;
          data_len = size_4k;
          payload = addr_info node service;
          timeout_ms = 0;
        }))
    pure (if is_zero r.ret then to_int (field 0 4 r.buffer) else negsuc 0)

  -- The result of the command is not looked at.
  pub close_relay : ℤ → ℤ → M S Unit
  close_relay fd desc = do
    _ ← sys step (
        admin_passthru (record {
          fd = fd;
          cdw10 = tsp_cs_close_relay;
          cdw11 = 0;
          cdw12 = 0;
          cdw13 = to_u32 desc;
          data_len = 0;
          payload = [];
          timeout_ms = 0;
        }))
    pure tt

  -- `bytes` is the memory at `data`. A fault is also the abort of the `assert`.
  pub write_relay : ℤ → ℤ → List ℕ → ℕ → M S CsStatus
  write_relay fd desc bytes len = do
    payload ← lift (if ltb 0 len then memcpy_local size_4k bytes (min len size_4k) else none)
    r ← sys step (
        admin_passthru (record {
          fd = fd;
          cdw10 = tsp_cs_comm;
          cdw11 = 1;
          cdw12 = len;
          cdw13 = to_u32 desc;
          data_len = size_4k;
          payload = payload;
          timeout_ms = 0;
        }))
    pure (if is_zero r.ret then cs_success else cs_error_in_execution)

  -- `none` is the result -1; otherwise what was put at `data`, a buffer of `len` bytes, is
  -- returned, whose number is the result. A fault is also the abort of the `assert`.
  pub read_relay : ℤ → ℤ → ℕ → M S (Option (List ℕ))
  read_relay fd desc len = do
    r ← sys step (
        admin_passthru (record {
          fd = fd;
          cdw10 = tsp_cs_comm;
          cdw11 = 0;
          cdw12 = 0;
          cdw13 = to_u32 desc;
          data_len = size_4k;
          payload = [];
          timeout_ms = 86400000;
        }))
    let size = field 0 4 r.buffer
    if is_zero r.ret
        then lift (
            if leb size (size_4k - 4)
            then (if ltb len (size_4k - 4)
                then some none
                else elim (memcpy_local len (drop 4 r.buffer) size) [
                  | none ↦ none
                  | some bytes ↦ some (some bytes)
                ])
            else none)
        else pure none
