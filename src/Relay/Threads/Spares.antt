-- ===== src/Relay/Threads/Spares.antt =====
-- The steps of the threads of host/socket_relay/main.c leave what the other thread has still to say.
use nvme_csd.Relay.Threads.Needs.{write_relay-left}
use nvme_csd.Base.{ℕ, ◌≤◌, arith, to_u32}
use nvme_csd.Cs.Sys.{Machine, Env, Call, read, write, shutdown, after}
use nvme_csd.Cs.Sys.Allows.{Allows, Allows-bind, Allows-if}
use nvme_csd.Relay.{close_relay, write_relay, read_relay}
use nvme_csd.Relay.Threads.{
  Link, ToNvme, to_read, to_write, to_close, to_done, FromNvme, from_read, from_write,
  from_shutdown, from_done, step_to, step_from,
}

module _ {S : Type 0} (step : Env S) (link : Link) (left : S → ℕ)
    (keeps : (c : Call) (s : S) → left (step c s).1 ≤ left s) where
  pub step_to-left :
      (to : ToNvme) (m : Machine S)
      → Allows (λ a m'. left m'.env ≤ left m.env) (step_to step link to m)
  unfolding step_to close_relay
  step_to-left to_read m = keeps (read link.connfd 4096) m.env
  step_to-left (to_write len bytes) m =
      Allows-bind (λ a m'. left m'.env ≤ left m.env) _
        (write_relay step link.devfd link.relay_desc bytes (to_u32 len)) _ m
        (write_relay-left step link left link.devfd link.relay_desc bytes (to_u32 len) m keeps)
        (λ status m' h. h)
  step_to-left to_close m = keeps _ m.env
  step_to-left to_done m = omega arith

  pub step_from-left :
      (from : FromNvme) (m : Machine S)
      → Allows (λ a m'. left m'.env ≤ left m.env) (step_from step link from m)
  unfolding step_from read_relay
  step_from-left from_read m =
      Allows-bind (λ a m'. left m'.env ≤ left m.env) _
        (read_relay step link.devfd link.relay_desc 4096) _ m
        (Allows-if (λ got m'. left m'.env ≤ left m.env) _ _ _ (after step _ m)
          (λ got. keeps _ m.env))
        (λ got m' h. h)
  step_from-left (from_write bytes) m = keeps (write link.connfd bytes) m.env
  step_from-left from_shutdown m = keeps (shutdown link.connfd) m.env
  step_from-left from_done m = omega arith
