-- ===== src/Relay/Main/Exits.antt =====
-- The program of host/socket_relay/main.c comes to its end.
use nvme_csd.Base.{
  ℕ, ◌+◌, ◌*◌, ◌≤◌, ◌≡◌, refl, ℤ, negsuc, pos, is_negative, List, [], Option, none, some, true,
  length, Option-cases, inl, inr,
}
use nvme_csd.Cs.Sys.{Machine, Env, Fills}
use nvme_csd.Cs.Sys.Trace.{Ensures}
use nvme_csd.Cs.Sys.Allows.{Allows, Allows-bind, Allows-next, Allows-cond, Ensures-Allows}
use nvme_csd.Relay.{open_relay}
use nvme_csd.Relay.Threads.{Link, Turn, ToNvme, FromNvme, to_done, from_done, launched, communicate}
use nvme_csd.Relay.Threads.Runs.{Reads, Answers}
use nvme_csd.Relay.Threads.Needs.{Leaves, Quiets}
use nvme_csd.Relay.Threads.Joins.{to_turns, from_turns, AreDone, communicate_joins}
use nvme_csd.Relay.Main.{
  RelayFlag, Options, default_options, parse_relay_options, Outcome, exited, is_joined, open_device,
  wait_client, relay_client, relay_accepted, serve_relay, relay_opened, relay_device_for,
  relay_main,
}
use nvme_csd.Relay.Main.Laws.{Relays, relay_main_lem}

-- No thread is left running.
abbrev pub Exits : {S : Type 0} → Outcome → Machine S → Type 0
Exits out m = (status : ℤ) × (out ≡ exited status)

joined :
    (to : ToNvme) (from : FromNvme) → to ≡ to_done → from ≡ from_done → is_joined to from ≡ true
unfolding is_joined
joined to from e f = rw (e, f) refl

module _ {S : Type 0} (step : Env S) (to_left from_left : S → ℕ) (c d : ℕ)
    (leaves : Leaves step to_left c) (quiets : Quiets step from_left d) (turns : List Turn)
    (enough_to : 2 * c + 2 ≤ to_turns turns) (enough_from : 2 * d + 2 ≤ from_turns turns) where
  relay_client-Exits :
      (link : Link) (sockfd : ℤ) (m : Machine S)
      → Allows Exits (relay_client step link sockfd turns m)
  unfolding relay_client
  relay_client-Exits link sockfd m =
      Allows-bind AreDone Exits (communicate step link turns launched) _ m
        (communicate_joins step link to_left from_left c d leaves quiets turns m enough_to
          enough_from)
        (λ t m' h. rw (joined t.to t.from h.0 h.1) (pos 0, refl))

  relay_accepted-Exits :
      (dev desc : ℤ) (client : Option (ℤ × ℤ)) (m : Machine S)
      → Allows Exits (relay_accepted step dev desc turns client m)
  unfolding relay_accepted
  relay_accepted-Exits dev desc none m = (negsuc 0, refl)
  relay_accepted-Exits dev desc (some (sockfd, connfd)) m =
      relay_client-Exits (record { connfd = connfd; devfd = dev; relay_desc = desc }) sockfd m

  serve_relay-Exits :
      (dev : ℤ) (o : Options) (m : Machine S) → Allows Exits (serve_relay step dev o turns m)
  unfolding serve_relay
  serve_relay-Exits dev o m =
      Allows-next Exits (open_relay step dev o.relay_node o.relay_port) _ m (λ desc m'.
        Allows-cond Exits (is_negative desc) _ _ m' (negsuc 0, refl)
          (Allows-next Exits (wait_client step o.port) _ m'
            (λ client m''. relay_accepted-Exits dev desc client m'')))

  relay_opened-Exits :
      (o : Options) (dev : Option ℤ) (m : Machine S)
      → Allows Exits (relay_opened step o turns dev m)
  unfolding relay_opened
  relay_opened-Exits o none m = (negsuc 0, refl)
  relay_opened-Exits o (some dev) m = serve_relay-Exits dev o m

  relay_device_for-Exits :
      (basename : List ℕ → List ℕ) (csx : Option (List ℕ)) (o : Options) (m : Machine S)
      → Allows Exits (relay_device_for step basename csx turns o m)
  unfolding relay_device_for
  relay_device_for-Exits basename none o m = (negsuc 0, refl)
  relay_device_for-Exits basename (some memory) o m =
      Allows-next Exits (open_device step basename o.dev_path memory) _ m
        (λ dev m'. relay_opened-Exits o dev m')

  relay_main-Allows :
      (atoi : List ℕ → ℤ) (basename : List ℕ → List ℕ) (csx : Option (List ℕ))
      (flags : List RelayFlag) (m : Machine S)
      → Allows Exits (relay_main step atoi basename csx flags turns m)
  unfolding relay_main
  relay_main-Allows atoi basename csx flags m =
      elim (Option-cases (parse_relay_options atoi default_options flags)) [
        | inl bad ↦ rw (bad, relay_main) (negsuc 0, refl)
        | inr (o, ok) ↦ rw (ok, relay_main) (relay_device_for-Exits basename csx o m)
      ]

  -- Where `read` and the device answer as documented, the client speaks at most `c` and the device at
  -- most `d` times, for every system, command line and memory of at least 4096 bytes, if any, and in
  -- every interleaving that gives the threads 2 c + 2 and 2 d + 2 turns: the program is defined and
  -- ends.
  pub relay_main-Exits :
      (reads : Reads step) (fills : Fills step) (answers : Answers step) (atoi : List ℕ → ℤ)
      (basename : List ℕ → List ℕ) (csx : Option (List ℕ)) (flags : List RelayFlag) (s : S)
      → ((memory : List ℕ) → csx ≡ some memory → 4096 ≤ length memory)
      → Ensures Exits
          (relay_main step atoi basename csx flags turns (record { env = s; trace = [] }))
  relay_main-Exits reads fills answers atoi basename csx flags s room =
      let m : Machine S = record { env = s; trace = [] } in
      Ensures-Allows Relays Exits (relay_main step atoi basename csx flags turns m)
        (relay_main_lem step reads fills answers atoi basename csx flags turns s room)
        (relay_main-Allows atoi basename csx flags m)
