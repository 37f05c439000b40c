-- ===== src/Relay/Main.antt =====
-- `main` of host/socket_relay/main.c: the options, the device, its relay, one client, and the threads
-- for it.
pub mod Setup
pub mod Laws
pub mod Exits
pub mod Refuses
pub mod Delivers
use nvme_csd.Base.{
  c_string, ℕ, ◌%◌, ◌^◌, ℤ, pos, negsuc, is_negative, is_zero, eqb_ℤ, to_u32, List, [], ◌∷◌, Option,
  none, some, Bool, true, false, not, if◌then◌else◌,
}
use nvme_csd.Cs.Sys.{M, pure, ◌>>=◌, Env, sys, socket, bind, listen, accept, close}
use nvme_csd.Cs.Types.{is_success}
use nvme_csd.Cs.Discovery.{cs_get_csx_from_path, cs_open_csx}
use nvme_csd.Relay.{size_4k, open_relay}
use nvme_csd.Relay.Threads.{
  Link, Turn, Threads, ToNvme, to_done, FromNvme, from_done, launched, communicate,
}

-- What `getopt` returns for "d:p:P:N:" before -1: an option with its argument, or '?'.
pub data RelayFlag : Type 0 where
  flag_device flag_port flag_relay_port flag_node : List ℕ → RelayFlag
  flag_unknown : RelayFlag

pub record Options : Type 0 where
  pub port : ℤ
  pub dev_path : Option (List ℕ)
  pub relay_node : List ℕ
  pub relay_port : List ℕ

-- Port 44422, no device, "127.0.0.1" and "22333".
abbrev pub default_options : Options
default_options = record {
  port = pos 44422;
  dev_path = none;
  relay_node = 49 ∷ 50 ∷ 55 ∷ 46 ∷ 48 ∷ 46 ∷ 48 ∷ 46 ∷ 49 ∷ [];
  relay_port = 50 ∷ 50 ∷ 51 ∷ 51 ∷ 51 ∷ [];
}

-- The loop over options. `none` is the return with -1. `atoi` is the C library's.
pub parse_relay_options : (List ℕ → ℤ) → Options → List RelayFlag → Option Options
parse_relay_options atoi o [] = some o
parse_relay_options atoi o (flag_device path ∷ flags) =
    parse_relay_options atoi (record o { dev_path = some path }) flags
parse_relay_options atoi o (flag_port text ∷ flags) =
    parse_relay_options atoi (record o { port = atoi text }) flags
parse_relay_options atoi o (flag_relay_port text ∷ flags) =
    parse_relay_options atoi (record o { relay_port = text }) flags
parse_relay_options atoi o (flag_node text ∷ flags) =
    parse_relay_options atoi (record o { relay_node = text }) flags
parse_relay_options atoi o (flag_unknown ∷ flags) = none

-- The program has ended with a status, or its threads still run.
pub data Outcome : Type 0 where
  exited : ℤ → Outcome
  running : Threads → Outcome

-- Both calls of `pthread_join` return.
pub is_joined : ToNvme → FromNvme → Bool
is_joined to_done from_done = true
is_joined _ _ = false

module _ {S : Type 0} (step : Env S) where
  -- `csGetCSxFromPath` and `csOpenCSx`, with the memory of `csxBuffer` as `malloc` gives it.
  pub open_device : (List ℕ → List ℕ) → Option (List ℕ) → List ℕ → M S (Option ℤ)
  open_device basename path csx = do
    (status, name) ← cs_get_csx_from_path step basename path (some size_4k) (some csx)
    if not (is_success status) then pure none else (do
      (status', handle) ← cs_open_csx step (some (c_string name)) true
      pure (if is_success status' then handle else none))

  -- From `accept` on: the client's descriptor.
  accept_client : ℤ → M S (Option (ℤ × ℤ))
  accept_client sockfd = do
    r ← sys step (accept sockfd)
    pure (if is_negative r.ret then none else some (sockfd, r.ret))

  -- From `listen` on.
  listen_socket : ℤ → M S (Option (ℤ × ℤ))
  listen_socket sockfd = do
    r ← sys step (listen sockfd)
    if is_zero r.ret then accept_client sockfd else pure none

  -- From `socket` to `accept`; the result of `setsockopt` is not looked at.
  pub wait_client : ℤ → M S (Option (ℤ × ℤ))
  wait_client port = do
    s ← sys step socket
    if eqb_ℤ s.ret (negsuc 0) then pure none else (do
      b ← sys step (bind s.ret (to_u32 port % 2 ^ 16))
      if is_zero b.ret then listen_socket s.ret else pure none)

  -- `communicate`, `close` and the return, after as many turns as were taken.
  pub relay_client : Link → ℤ → List Turn → M S Outcome
  relay_client link sockfd turns = do
    t ← communicate step link turns launched
    if is_joined t.to t.from
        then (do _ ← sys step (close sockfd); pure (exited (pos 0)))
        else pure (running t)

  -- From the accepted client on, which is the socket and the client's descriptor.
  relay_accepted : ℤ → ℤ → List Turn → Option (ℤ × ℤ) → M S Outcome
  relay_accepted dev desc turns none = pure (exited (negsuc 0))
  relay_accepted dev desc turns (some (sockfd, connfd)) =
      relay_client (record { connfd = connfd; devfd = dev; relay_desc = desc }) sockfd turns

  -- From the opened device on.
  serve_relay : ℤ → Options → List Turn → M S Outcome
  serve_relay dev o turns = do
    desc ← open_relay step dev o.relay_node o.relay_port
    if is_negative desc
        then pure (exited (negsuc 0))
        else (do client ← wait_client o.port; relay_accepted dev desc turns client)

  -- The descriptor of the device, if it could be opened.
  relay_opened : Options → List Turn → Option ℤ → M S Outcome
  relay_opened o turns none = pure (exited (negsuc 0))
  relay_opened o turns (some dev) = serve_relay dev o turns

  -- The body behind the options. The memory of `csxBuffer` is `none` where `malloc` fails.
  relay_device_for : (List ℕ → List ℕ) → Option (List ℕ) → List Turn → Options → M S Outcome
  relay_device_for basename none turns o = pure (exited (negsuc 0))
  relay_device_for basename (some memory) turns o = do
    dev ← open_device basename o.dev_path memory
    relay_opened o turns dev

  pub relay_main :
      (List ℕ → ℤ) → (List ℕ → List ℕ) → Option (List ℕ) → List RelayFlag → List Turn → M S Outcome
  relay_main atoi basename csx flags turns = elim (parse_relay_options atoi default_options flags) [
    | none ↦ pure (exited (negsuc 0))
    | some o ↦ relay_device_for basename csx turns o
  ]
