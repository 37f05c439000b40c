-- ===== src/Tests/Relay/Whole.antt =====
-- The relay of host/socket_relay/main.c from its start to its end.
use nvme_csd.Base.{
  ℕ, ◌≡◌, pos, List, [], ◌∷◌, length, min, Bool, true, false, not, ◌&&◌, ◌==◌, if◌then◌else◌,
}
use nvme_csd.Cs.Sys.{block_device, admin_passthru, read, write, Machine, Env}
use nvme_csd.Cs.Tsp.{tsp_cs_id_string}
use nvme_csd.Relay.Threads.Joins.{to_turns, from_turns}
use nvme_csd.Relay.Threads.Sides.{
  both, sides, combine, run_to, run_from, to_side, from_side, communicate-sides,
}
use nvme_csd.Relay.Main.Delivers.{Delivers}
use nvme_csd.Relay.Threads.{Turn, turn_to, turn_from, launched, communicate}
use nvme_csd.Tests.Relay.{fill, message, wires}

-- What a device says that has compute: who it is, and one message.
abbrev is_relay_read : ℕ → ℕ → Bool
is_relay_read cdw10 cdw11 = cdw10 == 64 && cdw11 == 0

abbrev said : Bool → Bool → List ℕ
said asked more = if asked && more then message else (0 ∷ 0 ∷ 0 ∷ 0 ∷ [])

-- A client that says 5 and 6 and leaves, and that device; the state is whether they have still to speak.
abbrev whole_step : Env (Bool × Bool)
whole_step (admin_passthru c) (word, more) =
    let asked = is_relay_read c.cdw10 c.cdw11 in
    (
      record {
        ret = pos 0;
        buffer = fill c.data_len (if c.cdw10 == 0 then tsp_cs_id_string else said asked more);
        kind = block_device;
      },
      (word, more && not asked),
    )
whole_step (read fd n) (true, more) =
    (record { ret = pos (min 2 n); buffer = 5 ∷ 6 ∷ []; kind = block_device }, (false, more))
whole_step (read fd n) (false, more) =
    (record { ret = pos 0; buffer = []; kind = block_device }, (false, more))
whole_step (write fd bytes) s =
    (record { ret = pos (length bytes); buffer = []; kind = block_device }, s)
whole_step call s = (record { ret = pos 0; buffer = []; kind = block_device }, s)

abbrev left : Bool → ℕ
left true = 1
left false = 0

-- Both threads come to their ends.
abbrev all_turns : List Turn
all_turns =
    turn_to ∷ turn_from ∷ turn_from ∷ turn_to ∷ turn_to ∷ turn_to ∷ turn_from ∷ turn_from ∷ []

abbrev buffer : List ℕ
buffer = fill 4096 []

-- A client that speaks once, and a device that sends the message once, as two systems.
abbrev client_step : Env Bool
client_step (read fd n) word = (
  record {
    ret = if word then pos (min 2 n) else pos 0;
    buffer = if word then (5 ∷ 6 ∷ []) else [];
    kind = block_device;
  },
  false,
)
client_step call word = (record { ret = pos 0; buffer = []; kind = block_device }, word)

abbrev device_step : Env Bool
device_step (admin_passthru c) more =
    (record { ret = pos 0; buffer = fill c.data_len (said true more); kind = block_device }, false)
device_step (write fd bytes) more =
    (record { ret = pos (length bytes); buffer = []; kind = block_device }, more)
device_step call more = (record { ret = pos 0; buffer = []; kind = block_device }, more)

abbrev two_sided : Machine (Bool × Bool)
two_sided = record { env = (true, true); trace = [] }

communicate-sides_example :
    sides (communicate (both client_step device_step) wires all_turns launched two_sided)
    ≡ combine
        (run_to client_step wires (to_turns all_turns) launched.to (to_side two_sided))
        (run_from device_step wires (from_turns all_turns) launched.from (from_side two_sided))
communicate-sides_example =
    communicate-sides client_step device_step wires all_turns launched two_sided
