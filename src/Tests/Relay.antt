-- ===== src/Tests/Relay.antt =====
-- The relay of host/socket_relay/main.c over a small device and client.
pub mod Whole
use nvme_csd.Base.{
  c_string, ℕ, zero, suc, ◌≤◌, ◌≡◌, refl, ap, arith, ℤ, pos, negsuc, is_zero, to_int, field, List,
  [], ◌∷◌, some, length, take, drop, min, ◌<◌, Bool, true, false, not, ◌&&◌, ◌==◌, if◌then◌else◌,
}
use nvme_csd.Cs.Sys.{
  block_device, Call, AdminCommand, admin_passthru, read, write, Machine, Env, Fills, after,
}
use nvme_csd.Cs.Sys.Trace.{Ensures}
use nvme_csd.Cs.Tsp.{tsp_cs_id_string}
use nvme_csd.Relay.Main.{flag_device, relay_main}
use nvme_csd.Relay.Threads.Needs.{Leaves, Quiets}
use nvme_csd.Relay.Threads.Joins.{to_turns, from_turns}
use nvme_csd.Relay.Threads.Sides.{
  both, sides, combine, run_to, run_from, to_side, from_side, communicate-sides,
}
use nvme_csd.Relay.Main.Exits.{Exits, relay_main-Exits}
use nvme_csd.Relay.Main.Laws.{Relays, relay_main_lem}
use nvme_csd.Relay.{tsp_cs_comm, open_relay, tsp_cs_open_relay}
use nvme_csd.Relay.Open.{open_relay_lem}
use nvme_csd.Relay.Threads.{Link, Turn, turn_to, turn_from, launched, communicate}
use nvme_csd.Relay.Threads.Streams.{InSync}
use nvme_csd.Relay.Threads.Runs.{Reads, Answers, communicate-InSync}

-- The bytes, cut off or filled with zeros to `n`.
abbrev pub fill : ℕ → List ℕ → List ℕ
fill zero bytes = []
fill (suc n) [] = 0 ∷ fill n []
fill (suc n) (b ∷ bytes) = b ∷ fill n bytes

pub length-fill : (n : ℕ) (bytes : List ℕ) → length (fill n bytes) ≡ n
length-fill zero bytes = refl
length-fill (suc n) [] = ap suc (length-fill n [])
length-fill (suc n) (b ∷ bytes) = ap suc (length-fill n bytes)

-- A message of three bytes.
abbrev pub message : List ℕ
message = 3 ∷ 0 ∷ 0 ∷ 0 ∷ 7 ∷ 8 ∷ 9 ∷ []

-- A client that says 5 and 6 and takes everything, and a device that sends the message.
abbrev relay_step : Env (Unit {0})
relay_step (admin_passthru c) s =
    (record { ret = pos 0; buffer = fill c.data_len message; kind = block_device }, s)
relay_step (read fd n) s =
    (record { ret = pos (min 2 n); buffer = 5 ∷ 6 ∷ []; kind = block_device }, s)
relay_step (write fd bytes) s =
    (record { ret = pos (length bytes); buffer = []; kind = block_device }, s)
relay_step call s = (record { ret = pos 0; buffer = []; kind = block_device }, s)

relay_step-Fills : Fills relay_step
relay_step-Fills c s = length-fill c.data_len message

pub pos_of : ℤ → ℕ
pos_of (pos n) = n
pos_of (negsuc n) = 0

relay_step-Reads : Reads relay_step
unfolding pos_of
relay_step-Reads fd n s k e =
    let same : min 2 n ≡ k = ap pos_of e in ((omega (arith, same)), (omega (arith, same)))

pub field-fill : (n : ℕ) → field 0 4 (fill n message) ≤ 4092
field-fill zero = omega arith
field-fill (suc zero) = omega arith
field-fill (suc (suc zero)) = omega arith
field-fill (suc (suc (suc zero))) = omega arith
field-fill (suc (suc (suc (suc n)))) = omega arith

relay_step-Answers : Answers relay_step
relay_step-Answers c s h k = field-fill c.data_len

abbrev pub first : Machine (Unit {0})
first = record { env = tt; trace = [] }

abbrev pub wires : Link
wires = record { connfd = pos 5; devfd = pos 3; relay_desc = pos 1 }

-- The threads take turns.
abbrev turns : List Turn
turns = turn_to ∷ turn_from ∷ turn_to ∷ turn_from ∷ turn_to ∷ []

launched-InSync : InSync launched first.trace
launched-InSync = record { to = refl; from = refl; ready = tt }

communicate-InSync_example :
    Ensures (λ t' m'. InSync t' m'.trace) (communicate relay_step wires turns launched first)
communicate-InSync_example =
    communicate-InSync relay_step wires relay_step-Reads relay_step-Fills relay_step-Answers turns
      launched first launched-InSync

-- "csd", and "22".
abbrev host : List ℕ
host = 99 ∷ 115 ∷ 100 ∷ []

abbrev ssh : List ℕ
ssh = 50 ∷ 50 ∷ []

open_relay_lem_example :
    (c : AdminCommand) × (c.fd ≡ pos 3)
    × (c.cdw10 ≡ tsp_cs_open_relay)
    × (length c.payload ≡ 4096)
    × (c_string (take 256 c.payload) ≡ host)
    × (c_string (take 256 (drop 256 c.payload)) ≡ ssh)
    × (let r = (relay_step (admin_passthru c) tt).0 in
        open_relay relay_step (pos 3) host ssh first
        ≡ some (
          (if is_zero r.ret then to_int (field 0 4 r.buffer) else negsuc 0),
          after relay_step (admin_passthru c) first,
        ))
open_relay_lem_example =
    open_relay_lem relay_step (pos 3) host ssh first
      ((λ e. omega arith), ((λ e. omega arith), ((λ e. omega arith), tt)))
      ((λ e. omega arith), ((λ e. omega arith), tt)) (omega arith) (omega arith)
