-- ===== src/Relay/Threads/Calls.antt =====
-- What the relay commands of host/socket_relay/main.c do where their threads call them.
use nvme_csd.Base.{
  ℕ, ◌≤◌, ◌<◌, min, ◌≡◌, refl, arith, ℤ, is_zero, to_u32, List, [], ◌∷◌, Bool, true, false, length,
  take, drop, field, if◌then◌else◌, lt→ltb, le→leb, none, some, length-drop,
}
use nvme_csd.Cs.Sys.{Machine, Env, after, lift, pure, AdminCommand, admin_passthru}
use nvme_csd.Cs.Types.{cs_success, cs_error_in_execution}
use nvme_csd.Relay.{tsp_cs_comm, write_relay, read_relay}
use nvme_csd.Relay.Threads.{from_read, from_write, from_shutdown}
use nvme_csd.Relay.Threads.Streams.{pending_from}

-- The command that passes `n` bytes on.
abbrev pub write_command : ℤ → ℤ → List ℕ → ℕ → AdminCommand
write_command fd desc bytes n = record {
  fd = fd;
  cdw10 = tsp_cs_comm;
  cdw11 = 1;
  cdw12 = n;
  cdw13 = to_u32 desc;
  data_len = 4096;
  payload = take n bytes;
  timeout_ms = 0;
}

pub write_relay_lem :
    {S : Type 0} (step : Env S) (fd desc : ℤ) (bytes : List ℕ) (n : ℕ) (m : Machine S)
    → 0 < n
    → n ≤ 4096
    → n ≤ length bytes
    → let c = admin_passthru (write_command fd desc bytes n) in
      write_relay step fd desc bytes n m
      ≡ some (
        (if is_zero (step c m.env).0.ret then cs_success else cs_error_in_execution),
        after step c m,
      )
unfolding write_relay
write_relay_lem step fd desc bytes n m some_bytes small inside =
    let least : min n 4096 ≡ n = omega arith in
    rw (lt→ltb 0 n some_bytes, least, le→leb n 4096 small, le→leb n (length bytes) inside) refl

-- The command that asks for bytes.
abbrev pub read_command : ℤ → ℤ → AdminCommand
read_command fd desc = record {
  fd = fd;
  cdw10 = tsp_cs_comm;
  cdw11 = 0;
  cdw12 = 0;
  cdw13 = to_u32 desc;
  data_len = 4096;
  payload = [];
  timeout_ms = 86400000;
}

if_some :
    {S A : Type 0} (b : Bool) (x y : A) (m : Machine S)
    → (if b then lift (some x) else pure y) m ≡ some ((if b then x else y), m)
if_some true x y m = refl
if_some false x y m = refl

pub read_relay_lem :
    {S : Type 0} (step : Env S) (fd desc : ℤ) (m : Machine S)
    → let c = admin_passthru (read_command fd desc) in
      let r = (step c m.env).0 in
      field 0 4 r.buffer ≤ 4092
      → length r.buffer ≡ 4096
      → read_relay step fd desc 4096 m
        ≡ some (
          (if is_zero r.ret then some (take (field 0 4 r.buffer) (drop 4 r.buffer)) else none),
          after step c m,
        )
unfolding read_relay
read_relay_lem step fd desc m small filled =
    let r = (step (admin_passthru (read_command fd desc)) m.env).0 in
    let size = field 0 4 r.buffer in
    rw
      (
        le→leb size 4092 small,
        le→leb size 4096 (omega arith),
        le→leb size (length (drop 4 r.buffer)) (omega (arith, length-drop 4 r.buffer)),
      )
      (if_some (is_zero r.ret) (some (take size (drop 4 r.buffer))) none
        (after step (admin_passthru (read_command fd desc)) m))

pub held_got :
    (b : Bool) (bytes : List ℕ)
    → (if b then bytes else [])
      ≡ pending_from (elim (if b then some bytes else none) [
        | none ↦ from_shutdown
        | some [] ↦ from_shutdown
        | some (x ∷ rest) ↦ from_write (x ∷ rest)
      ])
held_got false bytes = refl
held_got true [] = refl
held_got true (x ∷ rest) = refl

pub held_passed : (b : Bool) → pending_from (if b then from_shutdown else from_read) ≡ []
held_passed true = refl
held_passed false = refl
