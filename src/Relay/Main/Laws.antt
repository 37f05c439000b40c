-- ===== src/Relay/Main/Laws.antt =====
-- The relay of host/socket_relay/main.c as a whole: from the command line to the end of both threads.
use nvme_csd.Base.{
  ℕ, ◌≤◌, ◌≡◌, ◌⊎◌, inl, inr, refl, sym, ◌∙◌, arith, ℤ, pos, negsuc, is_negative, List, [], ◌∷◌,
  Option, none, some, true, length, append-nil, Option-cases,
}
use nvme_csd.Cs.Sys.{Reply, close, Event, Machine, Env, Fills}
use nvme_csd.Cs.Sys.Trace.{Ensures, Ensures-bind, Ensures-both, Ensures-if, Ensures-map}
use nvme_csd.Cs.Sys.Keeps.{Only}
use nvme_csd.Relay.{open_relay}
use nvme_csd.Relay.Threads.{
  Link, Turn, ToNvme, to_read, to_write, to_close, to_done, FromNvme, from_read, from_write,
  from_shutdown, from_done, launched, communicate,
}
use nvme_csd.Relay.Threads.Streams.{stream, read_bytes, sent_bytes, got_bytes, passed_bytes, InSync}
use nvme_csd.Relay.Threads.Runs.{Reads, Answers, communicate-InSync}
use nvme_csd.Relay.Threads.Ends.{count, ends_relay, is_shutdown, EndsOnce, communicate-EndsOnce}
use nvme_csd.Relay.Main.{
  RelayFlag, Options, default_options, parse_relay_options, Outcome, exited, running, is_joined,
  open_device, wait_client, relay_client, relay_accepted, serve_relay, relay_opened,
  relay_device_for, relay_main,
}
use nvme_csd.Relay.Main.Setup.{
  is_setup, setup-AreIdle, AreIdle-InSync, open_device-Only, wait_client-Only, open_relay-Only,
}

-- All bytes of the client were passed to the device and all bytes of the device to the client, in
-- their order; and the relay and the socket were each given up once.
pub record IsRelayed (trace : List Event) : Type 0 where
  pub to : stream read_bytes trace ≡ stream sent_bytes trace
  pub from : stream got_bytes trace ≡ stream passed_bytes trace
  pub relay : count ends_relay trace ≡ 1
  pub socket : count is_shutdown trace ≡ 1

-- The status is 0 only where everything was relayed, and else -1; while the threads run they are in
-- order.
abbrev pub Relays : {S : Type 0} → Outcome → Machine S → Type 0
Relays (exited status) m = (status ≡ negsuc 0) ⊎ ((status ≡ pos 0) × IsRelayed m.trace)
Relays (running t) m = InSync t m.trace

-- Both threads are at their ends.
joined-IsRelayed :
    (to : ToNvme) (from : FromNvme) (trace : List Event)
    → is_joined to from ≡ true
    → InSync (record { to = to; from = from }) trace
    → EndsOnce 0 0 (record { to = to; from = from }) trace
    → IsRelayed trace
unfolding is_joined
joined-IsRelayed to_done from_done trace h s e = record {
  to = s.to ∙ append-nil _;
  from = s.from ∙ append-nil _;
  relay = e.relay;
  socket = e.socket;
}
joined-IsRelayed to_done from_read trace h s e = absurd (cc)
joined-IsRelayed to_done (from_write bytes) trace h s e = absurd (cc)
joined-IsRelayed to_done from_shutdown trace h s e = absurd (cc)
joined-IsRelayed to_read from trace h s e = absurd (cc)
joined-IsRelayed (to_write len bytes) from trace h s e = absurd (cc)
joined-IsRelayed to_close from trace h s e = absurd (cc)

-- Closing a descriptor passes nothing on.
close-IsRelayed :
    (fd : ℤ) (r : Reply) (trace : List Event)
    → IsRelayed trace
    → IsRelayed (record { call = close fd; reply = r } ∷ trace)
unfolding read_bytes sent_bytes got_bytes passed_bytes ends_relay is_shutdown
close-IsRelayed fd r trace h = record {
  to = append-nil _ ∙ h.to ∙ sym (append-nil _);
  from = append-nil _ ∙ h.from ∙ sym (append-nil _);
  relay = h.relay;
  socket = h.socket;
}

module _ {S : Type 0} (step : Env S) (reads : Reads step) (fills : Fills step)
    (answers : Answers step) where
  relay_client-Relays :
      (link : Link) (sockfd : ℤ) (turns : List Turn) (m : Machine S)
      → Only is_setup m.trace
      → Ensures Relays (relay_client step link sockfd turns m)
  unfolding relay_client
  relay_client-Relays link sockfd turns m only =
      let idle = setup-AreIdle m.trace only in
      let start = AreIdle-InSync m.trace idle in
      Ensures-bind (λ t m'. InSync t m'.trace × EndsOnce 0 0 t m'.trace) Relays
        (communicate step link turns launched) _ m
        (Ensures-both (λ t m'. InSync t m'.trace) (λ t m'. EndsOnce 0 0 t m'.trace)
          (communicate step link turns launched m)
          (communicate-InSync step link reads fills answers turns launched m start)
          (Ensures-map _ (λ t m'. EndsOnce 0 0 t m'.trace) _
            (communicate-EndsOnce step link reads fills answers turns m start)
            (λ t m' h. record {
              relay = omega (arith, h.relay, idle.relay);
              socket = omega (arith, h.socket, idle.socket);
            })))
        (λ t m' h.
          Ensures-if Relays (is_joined t.to t.from) _ _ m'
            (λ joined. inr (
              refl,
              close-IsRelayed sockfd (step (close sockfd) m'.env).0 m'.trace
                  (joined-IsRelayed t.to t.from m'.trace joined h.0 h.1),
            ))
            (λ going. h.0))

  relay_accepted-Relays :
      (dev desc : ℤ) (turns : List Turn) (client : Option (ℤ × ℤ)) (m : Machine S)
      → Only is_setup m.trace
      → Ensures Relays (relay_accepted step dev desc turns client m)
  unfolding relay_accepted
  relay_accepted-Relays dev desc turns none m only = inl refl
  relay_accepted-Relays dev desc turns (some (sockfd, connfd)) m only =
      relay_client-Relays (record { connfd = connfd; devfd = dev; relay_desc = desc }) sockfd turns
        m only

  serve_relay-Relays :
      (dev : ℤ) (o : Options) (turns : List Turn) (m : Machine S)
      → Only is_setup m.trace
      → Ensures Relays (serve_relay step dev o turns m)
  unfolding serve_relay
  serve_relay-Relays dev o turns m only =
      Ensures-bind (λ a m'. Only is_setup m'.trace) Relays
        (open_relay step dev o.relay_node o.relay_port) _ m
        (open_relay-Only step dev o.relay_node o.relay_port m only)
        (λ desc m' only'.
          Ensures-if Relays (is_negative desc) _ _ m' (λ failed. inl refl)
            (λ ok.
              Ensures-bind (λ a m''. Only is_setup m''.trace) Relays (wait_client step o.port) _ m'
                (wait_client-Only step o.port m' only')
                (λ client m'' only''. relay_accepted-Relays dev desc turns client m'' only'')))

  relay_opened-Relays :
      (o : Options) (turns : List Turn) (dev : Option ℤ) (m : Machine S)
      → Only is_setup m.trace
      → Ensures Relays (relay_opened step o turns dev m)
  unfolding relay_opened
  relay_opened-Relays o turns none m only = inl refl
  relay_opened-Relays o turns (some dev) m only = serve_relay-Relays dev o turns m only

  relay_device_for-Relays :
      (basename : List ℕ → List ℕ) (csx : Option (List ℕ)) (turns : List Turn) (o : Options)
      (m : Machine S)
      → ((memory : List ℕ) → csx ≡ some memory → 4096 ≤ length memory)
      → Only is_setup m.trace
      → Ensures Relays (relay_device_for step basename csx turns o m)
  unfolding relay_device_for
  relay_device_for-Relays basename none turns o m room only = inl refl
  relay_device_for-Relays basename (some memory) turns o m room only =
      Ensures-bind (λ a m'. Only is_setup m'.trace) Relays
        (open_device step basename o.dev_path memory) _ m
        (open_device-Only step basename o.dev_path memory m (room memory refl) only)
        (λ dev m' only'. relay_opened-Relays o turns dev m' only')

  pub relay_main_lem :
      (atoi : List ℕ → ℤ) (basename : List ℕ → List ℕ) (csx : Option (List ℕ))
      (flags : List RelayFlag) (turns : List Turn) (s : S)
      → ((memory : List ℕ) → csx ≡ some memory → 4096 ≤ length memory)
      → Ensures Relays
          (relay_main step atoi basename csx flags turns (record { env = s; trace = [] }))
  unfolding relay_main
  relay_main_lem atoi basename csx flags turns s room =
      elim (Option-cases (parse_relay_options atoi default_options flags)) [
        | inl bad ↦ rw (bad, relay_main) (inl refl)
        | inr (o, ok) ↦
            rw (ok, relay_main)
              (relay_device_for-Relays basename csx turns o (record { env = s; trace = [] }) room
                tt)
      ]
