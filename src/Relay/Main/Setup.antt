-- ===== src/Relay/Main/Setup.antt =====
-- What host/socket_relay/main.c does before its threads run passes no bytes on and ends nothing.
use nvme_csd.Base.{
  ℕ, ◌≤◌, ◌≡◌, refl, sym, ◌∙◌, ℤ, negsuc, is_negative, is_zero, eqb_ℤ, to_u32, ◌%◌, ◌^◌, List, [],
  ◌∷◌, ◌++◌, Option, none, some, Bool, true, false, not, ◌||◌, ◌==◌, length, c_string,
  if◌then◌else◌, append-nil,
}
use nvme_csd.Cs.Sys.{
  Call, AdminCommand, admin_passthru, socket, bind, listen, accept, read, write, shutdown, Reply,
  Event, Machine, Env, sys, after,
}
use nvme_csd.Cs.Sys.Allows.{Ensures-Allows}
use nvme_csd.Cs.Sys.Keeps.{Only, Keeps, Keeps-pure, Keeps-sys, Keeps-bind, Keeps-if}
use nvme_csd.Cs.Sys.Trace.{count_if, Ensures, Ensures-bind, Ensures-if, IsDefined}
use nvme_csd.Cs.Tsp.{tsp_cs_identify}
use nvme_csd.Cs.Types.{is_success}
use nvme_csd.Cs.Discovery.{cs_get_csx_from_path, cs_open_csx}
use nvme_csd.Cs.Discovery.Calls.{cs_get_csx_from_path-Keeps, cs_open_csx-Keeps}
use nvme_csd.Cs.Discovery.Laws.{cs_get_csx_from_path-IsDefined, cs_open_csx-IsDefined}
use nvme_csd.Relay.{tsp_cs_comm, tsp_cs_close_relay, size_4k, open_relay}
use nvme_csd.Relay.Threads.{launched}
use nvme_csd.Relay.Threads.Streams.{stream, read_bytes, sent_bytes, got_bytes, passed_bytes, InSync}
use nvme_csd.Relay.Threads.Ends.{count, ends_relay, is_shutdown}
use nvme_csd.Relay.Main.{open_device, wait_client, listen_socket, accept_client}

-- The calls that come before the threads.
unfoldable pub is_setup : Call → Bool
is_setup (admin_passthru c) = not (c.cdw10 == tsp_cs_comm || c.cdw10 == tsp_cs_close_relay)
is_setup (read fd n) = false
is_setup (write fd bytes) = false
is_setup (shutdown fd) = false
is_setup _ = true

-- They pass no bytes on and end nothing.
pub record Idle (c : Call) (r : Reply) : Type 0 where
  pub read : read_bytes c r ≡ []
  pub sent : sent_bytes c r ≡ []
  pub got : got_bytes c r ≡ []
  pub passed : passed_bytes c r ≡ []
  pub relay : ends_relay c r ≡ false
  pub socket : is_shutdown c r ≡ false

neither : (p q : Bool) → not (p || q) ≡ true → (p ≡ false) × (q ≡ false)
neither true q h = absurd (cc)
neither false true h = absurd (cc)
neither false false h = (refl, refl)

is_setup-Idle : (c : Call) (r : Reply) → is_setup c ≡ true → Idle c r
unfolding is_setup read_bytes sent_bytes got_bytes passed_bytes ends_relay is_shutdown
is_setup-Idle (admin_passthru c) r h =
    let (comm, ends) = neither (c.cdw10 == tsp_cs_comm) (c.cdw10 == tsp_cs_close_relay) h in
    record {
      read = refl;
      sent = rw comm refl;
      got = rw comm refl;
      passed = refl;
      relay = rw (comm, ends) refl;
      socket = refl;
    }
is_setup-Idle (read fd n) r h = absurd (cc)
is_setup-Idle (write fd bytes) r h = absurd (cc)
is_setup-Idle (shutdown fd) r h = absurd (cc)
is_setup-Idle _ r h = record {
  read = refl;
  sent = refl;
  got = refl;
  passed = refl;
  relay = refl;
  socket = refl;
}

-- After such calls alone no byte has been passed on and nothing has ended.
pub record AreIdle (trace : List Event) : Type 0 where
  pub read : stream read_bytes trace ≡ []
  pub sent : stream sent_bytes trace ≡ []
  pub got : stream got_bytes trace ≡ []
  pub passed : stream passed_bytes trace ≡ []
  pub relay : count ends_relay trace ≡ 0
  pub socket : count is_shutdown trace ≡ 0

append_idle : (taken here : List ℕ) → taken ≡ [] → here ≡ [] → taken ++ here ≡ []
append_idle taken here h k = rw (h, k) refl

count_idle : (b : Bool) (n : ℕ) → b ≡ false → n ≡ 0 → count_if b n ≡ 0
count_idle b n h k = rw (h, k) refl

pub setup-AreIdle : (trace : List Event) → Only is_setup trace → AreIdle trace
setup-AreIdle [] h = record {
  read = refl;
  sent = refl;
  got = refl;
  passed = refl;
  relay = refl;
  socket = refl;
}
setup-AreIdle (e ∷ trace) h =
    let i = is_setup-Idle e.call e.reply h.0 in
    let r = setup-AreIdle trace h.1 in
    record {
      read = append_idle _ _ r.read i.read;
      sent = append_idle _ _ r.sent i.sent;
      got = append_idle _ _ r.got i.got;
      passed = append_idle _ _ r.passed i.passed;
      relay = count_idle _ _ i.relay r.relay;
      socket = count_idle _ _ i.socket r.socket;
    }

pub AreIdle-InSync : (trace : List Event) → AreIdle trace → InSync launched trace
AreIdle-InSync trace h = record {
  to = h.read ∙ sym (append-nil _ ∙ h.sent);
  from = h.got ∙ sym (append-nil _ ∙ h.passed);
  ready = tt;
}

module _ {S : Type 0} (step : Env S) where
  open_device-Keeps :
      (basename : List ℕ → List ℕ) (path : Option (List ℕ)) (csx : List ℕ)
      → Keeps is_setup (open_device step basename path csx)
  unfolding open_device is_setup
  open_device-Keeps basename path csx =
      Keeps-bind is_setup (cs_get_csx_from_path step basename path (some size_4k) (some csx)) _
        (cs_get_csx_from_path-Keeps step is_setup (λ n. refl) (λ n. refl) (λ n. refl) identifies
          basename path size_4k csx)
        (λ r. Keeps-if is_setup (not (is_success r.0)) _ _ (Keeps-pure is_setup none) (
          Keeps-bind is_setup (cs_open_csx step (some (c_string r.1)) true) _
            (cs_open_csx-Keeps step is_setup (λ n. refl) (λ n. refl) (λ n. refl) identifies
              (c_string r.1))
            (λ r'. Keeps-pure is_setup (if is_success r'.0 then r'.1 else none))))
    where
      identifies :
          (c : AdminCommand) → c.cdw10 ≡ tsp_cs_identify → is_setup (admin_passthru c) ≡ true
      identifies c e = rw e refl

  wait_client-Keeps : (port : ℤ) → Keeps is_setup (wait_client step port)
  unfolding wait_client listen_socket accept_client is_setup
  wait_client-Keeps port =
      Keeps-bind is_setup (sys step socket) _ (Keeps-sys is_setup step socket refl) (λ s.
        Keeps-if is_setup (eqb_ℤ s.ret (negsuc 0)) _ _ (Keeps-pure is_setup none) (
          Keeps-bind is_setup (sys step (bind s.ret (to_u32 port % 2 ^ 16))) _
            (Keeps-sys is_setup step (bind s.ret (to_u32 port % 2 ^ 16)) refl)
            (λ b.
              Keeps-if is_setup (is_zero b.ret) _ _ (listens s.ret) (Keeps-pure is_setup none))))
    where
      accepts : (sockfd : ℤ) → Keeps is_setup (accept_client step sockfd)
      accepts sockfd =
          Keeps-bind is_setup (sys step (accept sockfd)) _
            (Keeps-sys is_setup step (accept sockfd) refl)
            (λ r. Keeps-pure is_setup (if is_negative r.ret then none else some (sockfd, r.ret)))

      listens : (sockfd : ℤ) → Keeps is_setup (listen_socket step sockfd)
      listens sockfd =
          Keeps-bind is_setup (sys step (listen sockfd)) _
            (Keeps-sys is_setup step (listen sockfd) refl)
            (λ r. Keeps-if is_setup (is_zero r.ret) _ _ (accepts sockfd) (Keeps-pure is_setup none))

  pub open_device-IsDefined :
      (basename : List ℕ → List ℕ) (path : Option (List ℕ)) (csx : List ℕ) (m : Machine S)
      → 4096 ≤ length csx
      → IsDefined (open_device step basename path csx m)
  unfolding open_device
  open_device-IsDefined basename path csx m room =
      let Q = λ (a : Option ℤ) (m' : Machine S). Unit {0} in
      Ensures-bind (λ a m'. Unit {0}) Q
        (cs_get_csx_from_path step basename path (some size_4k) (some csx)) _ m
        (cs_get_csx_from_path-IsDefined step basename path size_4k csx m room)
        (λ r m' h.
          Ensures-if Q (not (is_success r.0)) _ _ m' (λ failed. tt)
            (λ ok.
              Ensures-bind (λ a m''. Unit {0}) Q (cs_open_csx step (some (c_string r.1)) true) _ m'
                (cs_open_csx-IsDefined step (c_string r.1) m') (λ r' m'' h'. tt)))

  wait_client-IsDefined : (port : ℤ) (m : Machine S) → IsDefined (wait_client step port m)
  unfolding wait_client listen_socket accept_client
  wait_client-IsDefined port m =
      let Q = λ (a : Option (ℤ × ℤ)) (m' : Machine S). Unit {0} in
      let s = (step socket m.env).0.ret in
      let bound = bind s (to_u32 port % 2 ^ 16) in
      let m₁ = after step socket m in
      let m₂ = after step bound m₁ in
      Ensures-if Q (eqb_ℤ s (negsuc 0)) _ _ m₁ (λ failed. tt)
        (λ made.
          Ensures-if Q (is_zero (step bound m₁.env).0.ret) _ _ m₂
            (λ ok.
              Ensures-if Q (is_zero (step (listen s) m₂.env).0.ret) _ _ (after step (listen s) m₂)
                (λ listens. tt) (λ failed. tt))
            (λ failed. tt))

  -- Finding and opening the device, and waiting for a client, are defined, and make such calls only.
  pub open_device-Only :
      (basename : List ℕ → List ℕ) (path : Option (List ℕ)) (csx : List ℕ) (m : Machine S)
      → 4096 ≤ length csx
      → Only is_setup m.trace
      → Ensures (λ a m'. Only is_setup m'.trace) (open_device step basename path csx m)
  open_device-Only basename path csx m room h =
      Ensures-Allows (λ a m'. Unit {0}) (λ a m'. Only is_setup m'.trace) _
        (open_device-IsDefined basename path csx m room)
        ((open_device-Keeps basename path csx).at m h)

  pub wait_client-Only :
      (port : ℤ) (m : Machine S)
      → Only is_setup m.trace
      → Ensures (λ a m'. Only is_setup m'.trace) (wait_client step port m)
  wait_client-Only port m h =
      Ensures-Allows (λ a m'. Unit {0}) (λ a m'. Only is_setup m'.trace) _
        (wait_client-IsDefined port m) ((wait_client-Keeps port).at m h)

  pub open_relay-Only :
      (fd : ℤ) (node service : List ℕ) (m : Machine S)
      → Only is_setup m.trace
      → Ensures (λ a m'. Only is_setup m'.trace) (open_relay step fd node service m)
  unfolding open_relay is_setup
  open_relay-Only fd node service m h = (refl, h)
