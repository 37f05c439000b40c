-- ===== src/Relay/Main/Delivers.antt =====
-- The program of host/socket_relay/main.c delivers what it takes in.
use nvme_csd.Base.{◌≡◌, ◌⊎◌, negsuc, pos, List}
use nvme_csd.Cs.Sys.{Event, Machine}
use nvme_csd.Relay.Threads.Streams.{stream, read_bytes, got_bytes}
use nvme_csd.Relay.Threads.Settles.{accepted_bytes, delivered_bytes}
use nvme_csd.Relay.Main.{Outcome, exited}
use nvme_csd.Relay.Main.Refuses.{HasNoClient, Refuses}
use nvme_csd.Relay.Main.Exits.{Exits}

-- All bytes of the client were accepted by the device, and all bytes of the device were taken by the
-- client's socket, in their order.
pub record IsDelivered (trace : List Event) : Type 0 where
  pub to : stream read_bytes trace ≡ stream accepted_bytes trace
  pub from : stream got_bytes trace ≡ stream delivered_bytes trace

-- The program ends with -1 and has accepted no client, or with 0 and all is delivered.
abbrev pub Delivers : {S : Type 0} → Outcome → Machine S → Type 0
Delivers out m =
    ((out ≡ exited (negsuc 0)) × HasNoClient m.trace)
    ⊎ ((out ≡ exited (pos 0)) × IsDelivered m.trace)
