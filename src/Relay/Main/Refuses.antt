-- ===== src/Relay/Main/Refuses.antt =====
-- The program of host/socket_relay/main.c ends with -1 only where it has no client.
use nvme_csd.Base.{
  ℕ, ◌≡◌, refl, ℤ, negsuc, is_negative, is_zero, eqb_ℤ, to_u32, ◌%◌, ◌^◌, List, [], ◌∷◌, Option,
  none, some, Bool, true, false, not, Option-cases, inl, inr, c_string, if◌then◌else◌,
}
use nvme_csd.Cs.Sys.{Call, socket, bind, listen, accept, Reply, Event, Machine, Env, after}
use nvme_csd.Cs.Sys.Allows.{Allows, Allows-bind, Allows-cond, Allows-next}
use nvme_csd.Cs.Sys.Keeps.{Only, Keeps, Keeps-pure, Keeps-bind, Keeps-if}
use nvme_csd.Cs.Sys.Trace.{count_if}
use nvme_csd.Cs.Types.{is_success}
use nvme_csd.Cs.Discovery.{cs_get_csx_from_path, cs_open_csx}
use nvme_csd.Cs.Discovery.Calls.{cs_get_csx_from_path-Keeps, cs_open_csx-Keeps}
use nvme_csd.Relay.{size_4k, open_relay}
use nvme_csd.Relay.Threads.{Link, Turn, launched, communicate}
use nvme_csd.Relay.Threads.Ends.{count}
use nvme_csd.Relay.Main.{
  RelayFlag, Options, default_options, parse_relay_options, Outcome, exited, is_joined, open_device,
  wait_client, listen_socket, accept_client, relay_client, relay_accepted, serve_relay,
  relay_opened, relay_device_for, relay_main,
}

-- The call accepted a client.
pub is_welcome : Call → Reply → Bool
is_welcome (accept fd) r = not (is_negative r.ret)
is_welcome _ r = false

-- No client was accepted.
abbrev pub HasNoClient : List Event → Type 0
HasNoClient trace = count is_welcome trace ≡ 0

-- The calls that accept none.
is_before : Call → Bool
is_before (accept fd) = false
is_before _ = true

is_before-welcome : (c : Call) (r : Reply) → is_before c ≡ true → is_welcome c r ≡ false
unfolding is_before is_welcome
is_before-welcome (accept fd) r h = cc
is_before-welcome _ r h = refl

Only-HasNoClient : (trace : List Event) → Only is_before trace → HasNoClient trace
Only-HasNoClient [] h = refl
Only-HasNoClient (e ∷ trace) h =
    rw (is_before-welcome e.call e.reply h.0) (Only-HasNoClient trace h.1)

-- If the program ends with -1, it has no client.
abbrev pub Refuses : {S : Type 0} → Outcome → Machine S → Type 0
Refuses out m = out ≡ exited (negsuc 0) → HasNoClient m.trace

module _ {S : Type 0} (step : Env S) where
  open_device-Keeps :
      (basename : List ℕ → List ℕ) (path : Option (List ℕ)) (csx : List ℕ)
      → Keeps is_before (open_device step basename path csx)
  unfolding open_device is_before
  open_device-Keeps basename path csx =
      Keeps-bind is_before (cs_get_csx_from_path step basename path (some size_4k) (some csx)) _
        (cs_get_csx_from_path-Keeps step is_before (λ n. refl) (λ n. refl) (λ n. refl) (λ c e. refl)
          basename path size_4k csx)
        (λ r. Keeps-if is_before (not (is_success r.0)) _ _ (Keeps-pure is_before none) (
          Keeps-bind is_before (cs_open_csx step (some (c_string r.1)) true) _
            (cs_open_csx-Keeps step is_before (λ n. refl) (λ n. refl) (λ n. refl) (λ c e. refl)
              (c_string r.1))
            (λ r'. Keeps-pure is_before (if is_success r'.0 then r'.1 else none))))

  -- Where no client came, none was accepted.
  abbrev Waits : Option (ℤ × ℤ) → Machine S → Type 0
  Waits client m = client ≡ none → HasNoClient m.trace

  accept_client-Waits :
      (sockfd : ℤ) (m : Machine S)
      → Only is_before m.trace
      → Allows Waits (accept_client step sockfd m)
  unfolding accept_client is_welcome
  accept_client-Waits sockfd m only =
      let r = (step (accept sockfd) m.env).0.ret in
      go (is_negative r) r (Only-HasNoClient m.trace only)
    where
      go :
          (b : Bool) (ret : ℤ)
          → HasNoClient m.trace
          → let client : Option (ℤ × ℤ) = if b then none else some (sockfd, ret) in
            client ≡ none → count_if (not b) (count is_welcome m.trace) ≡ 0
      go true ret h e = h
      go false ret h e = cc

  wait_client-Waits :
      (port : ℤ) (m : Machine S) → Only is_before m.trace → Allows Waits (wait_client step port m)
  unfolding wait_client listen_socket is_before
  wait_client-Waits port m only =
      let s = (step socket m.env).0.ret in
      let bound = bind s (to_u32 port % 2 ^ 16) in
      let m₁ = after step socket m in
      let m₂ = after step bound m₁ in
      let m₃ = after step (listen s) m₂ in
      Allows-cond Waits (eqb_ℤ s (negsuc 0)) _ _ m₁ (λ e. Only-HasNoClient m₁.trace (refl, only))
        (Allows-cond Waits (is_zero (step bound m₁.env).0.ret) _ _ m₂
          (Allows-cond Waits (is_zero (step (listen s) m₂.env).0.ret) _ _ m₃
            (accept_client-Waits s m₃ (refl, (refl, (refl, only))))
            (λ e. Only-HasNoClient m₃.trace (refl, (refl, (refl, only)))))
          (λ e. Only-HasNoClient m₂.trace (refl, (refl, only))))

  relay_client-Refuses :
      (link : Link) (sockfd : ℤ) (turns : List Turn) (m : Machine S)
      → Allows Refuses (relay_client step link sockfd turns m)
  unfolding relay_client
  relay_client-Refuses link sockfd turns m =
      Allows-next Refuses (communicate step link turns launched) _ m
        (λ t m'. Allows-cond Refuses (is_joined t.to t.from) _ _ m' (λ e. cc) (λ e. cc))

  relay_accepted-Refuses :
      (dev desc : ℤ) (turns : List Turn) (client : Option (ℤ × ℤ)) (m : Machine S)
      → Waits client m
      → Allows Refuses (relay_accepted step dev desc turns client m)
  unfolding relay_accepted
  relay_accepted-Refuses dev desc turns none m h = λ e. h refl
  relay_accepted-Refuses dev desc turns (some (sockfd, connfd)) m h =
      relay_client-Refuses (record { connfd = connfd; devfd = dev; relay_desc = desc }) sockfd turns
        m

  open_relay-Only :
      (dev : ℤ) (node service : List ℕ) (m : Machine S)
      → Only is_before m.trace
      → Allows (λ desc m'. Only is_before m'.trace) (open_relay step dev node service m)
  unfolding open_relay is_before
  open_relay-Only dev node service m only = (refl, only)

  serve_relay-Refuses :
      (dev : ℤ) (o : Options) (turns : List Turn) (m : Machine S)
      → Only is_before m.trace
      → Allows Refuses (serve_relay step dev o turns m)
  unfolding serve_relay
  serve_relay-Refuses dev o turns m only =
      Allows-bind (λ desc m'. Only is_before m'.trace) Refuses
        (open_relay step dev o.relay_node o.relay_port) _ m
        (open_relay-Only dev o.relay_node o.relay_port m only)
        (λ desc m' only'.
          Allows-cond Refuses (is_negative desc) _ _ m' (λ e. Only-HasNoClient m'.trace only')
            (Allows-bind Waits Refuses (wait_client step o.port) _ m'
              (wait_client-Waits o.port m' only')
              (λ client m'' h. relay_accepted-Refuses dev desc turns client m'' h)))

  relay_opened-Refuses :
      (o : Options) (turns : List Turn) (dev : Option ℤ) (m : Machine S)
      → Only is_before m.trace
      → Allows Refuses (relay_opened step o turns dev m)
  unfolding relay_opened
  relay_opened-Refuses o turns none m only = λ e. Only-HasNoClient m.trace only
  relay_opened-Refuses o turns (some dev) m only = serve_relay-Refuses dev o turns m only

  relay_device_for-Refuses :
      (basename : List ℕ → List ℕ) (csx : Option (List ℕ)) (turns : List Turn) (o : Options)
      (m : Machine S)
      → Only is_before m.trace
      → Allows Refuses (relay_device_for step basename csx turns o m)
  unfolding relay_device_for
  relay_device_for-Refuses basename none turns o m only = λ e. Only-HasNoClient m.trace only
  relay_device_for-Refuses basename (some memory) turns o m only =
      Allows-bind (λ dev m'. Only is_before m'.trace) Refuses
        (open_device step basename o.dev_path memory) _ m
        ((open_device-Keeps basename o.dev_path memory).at m only)
        (λ dev m' only'. relay_opened-Refuses o turns dev m' only')

  -- The program ends with -1 only where it has accepted no client.
  pub relay_main-Refuses :
      (atoi : List ℕ → ℤ) (basename : List ℕ → List ℕ) (csx : Option (List ℕ))
      (flags : List RelayFlag) (turns : List Turn) (s : S)
      → Allows Refuses
          (relay_main step atoi basename csx flags turns (record { env = s; trace = [] }))
  unfolding relay_main
  relay_main-Refuses atoi basename csx flags turns s =
      elim (Option-cases (parse_relay_options atoi default_options flags)) [
        | inl bad ↦ rw (bad, relay_main) (λ e. refl)
        | inr (o, ok) ↦
            rw (ok, relay_main)
              (relay_device_for-Refuses basename csx turns o (record { env = s; trace = [] }) tt)
      ]
