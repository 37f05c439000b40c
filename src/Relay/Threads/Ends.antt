-- ===== src/Relay/Threads/Ends.antt =====
-- How the two threads of host/socket_relay/main.c end: the relay and the socket are each given up
-- once.
use nvme_csd.Base.{
  ℕ, ◌+◌, ◌≡◌, refl, ◌∙◌, arith, ℤ, is_negative, is_zero, to_u32, List, [], ◌∷◌, Bool, true, false,
  not, ◌&&◌, ◌||◌, Option, ltb, memcpy_local, min, none, some, ◌==◌, if◌then◌else◌,
}
use nvme_csd.Cs.Sys.{
  Machine, Env, Fills, after, Call, AdminCommand, admin_passthru, read, write, shutdown, Reply,
  Event,
}
use nvme_csd.Cs.Sys.Trace.{count_if, Ensures}
use nvme_csd.Cs.Types.{CsStatus, is_success, cs_success, cs_error_in_execution}
use nvme_csd.Relay.{tsp_cs_comm, tsp_cs_close_relay, close_relay, write_relay, read_relay}
use nvme_csd.Cs.Sys.Allows.{Allows, Allows-bind, Allows-lift, Allows-if, Ensures-Allows}
use nvme_csd.Relay.Threads.Streams.{InSync}
use nvme_csd.Relay.Threads.Runs.{Reads, Answers, communicate-InSync}
use nvme_csd.Relay.Threads.{
  launched, Link, ToNvme, to_read, to_write, to_close, to_done, FromNvme, from_read, from_write,
  from_shutdown, from_done, Threads, Turn, turn_to, turn_from, step_to, step_from, step_threads,
  communicate,
}

-- A command that closes a relay, or that fails to write to one.
unfoldable pub ends_relay : Call → Reply → Bool
ends_relay (admin_passthru c) r =
    c.cdw10 == tsp_cs_close_relay
    || ((c.cdw10 == tsp_cs_comm && c.cdw11 == 1) && not (is_zero r.ret))
ends_relay _ r = false

unfoldable pub is_shutdown : Call → Reply → Bool
is_shutdown (shutdown fd) r = true
is_shutdown _ r = false

abbrev pub count : (Call → Reply → Bool) → List Event → ℕ
count f [] = 0
count f (e ∷ trace) = count_if (f e.call e.reply) (count f trace)

abbrev pub ended_to : ToNvme → ℕ
ended_to to_done = 1
ended_to _ = 0

abbrev pub ended_from : FromNvme → ℕ
ended_from from_done = 1
ended_from _ = 0

-- With `k` and `l` such events before: each thread has had its one exactly if it is at its end.
pub record EndsOnce (k l : ℕ) (t : Threads) (trace : List Event) : Type 0 where
  pub relay : count ends_relay trace ≡ k + ended_to t.to
  pub socket : count is_shutdown trace ≡ l + ended_from t.from

ended-read :
    (b : Bool) (len : ℤ) (bytes : List ℕ)
    → ended_to (if b then to_close else to_write len bytes) ≡ 0
ended-read true len bytes = refl
ended-read false len bytes = refl

ended-write : (b : Bool) → ended_from (if b then from_shutdown else from_read) ≡ 0
ended-write true = refl
ended-write false = refl

ended-got :
    (got : Option (List ℕ))
    → ended_from (elim got [
      | none ↦ from_shutdown
      | some [] ↦ from_shutdown
      | some (b ∷ bytes) ↦ from_write (b ∷ bytes)
    ])
      ≡ 0
ended-got none = refl
ended-got (some []) = refl
ended-got (some (b ∷ bytes)) = refl

-- The thread ends exactly where the write fails.
ended-status :
    (b : Bool) (n : ℕ)
    → let status = if b then cs_success else cs_error_in_execution in
      count_if (not b) n ≡ n + ended_to (if is_success status then to_read else to_done)
unfolding is_success
ended-status true n = omega arith
ended-status false n = omega arith

module _ {S : Type 0} (step : Env S) (link : Link) (k l : ℕ) where
  write_relay-EndsOnce :
      (fd desc : ℤ) (bytes : List ℕ) (len : ℕ) (m : Machine S)
      → Allows
          (λ status m'.
            (count ends_relay m'.trace
              ≡ count ends_relay m.trace
                + ended_to (if is_success status then to_read else to_done))
            × (count is_shutdown m'.trace ≡ count is_shutdown m.trace))
          (write_relay step fd desc bytes len m)
  unfolding write_relay ends_relay is_shutdown
  write_relay-EndsOnce fd desc bytes len m =
      Allows-lift _ (if ltb 0 len then memcpy_local 4096 bytes (min len 4096) else none) _ m
        (λ payload.
          let c = admin_passthru (record {
            fd = fd;
            cdw10 = tsp_cs_comm;
            cdw11 = 1;
            cdw12 = len;
            cdw13 = to_u32 desc;
            data_len = 4096;
            payload = payload;
            timeout_ms = 0;
          }) in
          (ended-status (is_zero (step c m.env).0.ret) (count ends_relay m.trace), refl))

  read_relay-EndsOnce :
      (fd desc : ℤ) (len : ℕ) (m : Machine S)
      → Allows
          (λ got m'.
            (count ends_relay m'.trace ≡ count ends_relay m.trace)
            × (count is_shutdown m'.trace ≡ count is_shutdown m.trace))
          (read_relay step fd desc len m)
  unfolding read_relay ends_relay is_shutdown
  read_relay-EndsOnce fd desc len m =
      let P = λ (got : Option (List ℕ)) (m' : Machine S).
        (count ends_relay m'.trace ≡ count ends_relay m.trace)
        × (count is_shutdown m'.trace ≡ count is_shutdown m.trace) in
      let c : AdminCommand = record {
        fd = fd;
        cdw10 = tsp_cs_comm;
        cdw11 = 0;
        cdw12 = 0;
        cdw13 = to_u32 desc;
        data_len = 4096;
        payload = [];
        timeout_ms = 86400000;
      } in
      let m₁ : Machine S = after step (admin_passthru c) m in
      Allows-if P _ _ _ m₁ (λ got. (refl, refl))

  step_to-EndsOnce :
      (to : ToNvme) (from : FromNvme) (m : Machine S)
      → EndsOnce k l (record { to = to; from = from }) m.trace
      → Allows
          (λ to' m'. EndsOnce k l (record { to = to'; from = from }) m'.trace)
          (step_to step link to m)
  unfolding step_to close_relay ends_relay is_shutdown
  step_to-EndsOnce to_read from m h =
      let r = (step (read link.connfd 4096) m.env).0 in
      record {
        relay =
            omega (arith, h.relay, ended-read (is_zero r.ret || is_negative r.ret) r.ret r.buffer);
        socket = h.socket;
      }
  step_to-EndsOnce (to_write len bytes) from m h =
      let P = λ (status : CsStatus) (m' : Machine S).
        (count ends_relay m'.trace
          ≡ count ends_relay m.trace + ended_to (if is_success status then to_read else to_done))
        × (count is_shutdown m'.trace ≡ count is_shutdown m.trace) in
      Allows-bind P (λ to' m'. EndsOnce k l (record { to = to'; from = from }) m'.trace)
        (write_relay step link.devfd link.relay_desc bytes (to_u32 len)) _ m
        (write_relay-EndsOnce link.devfd link.relay_desc bytes (to_u32 len) m)
        (λ status m' e. record { relay = omega (arith, h.relay, e.0); socket = e.1 ∙ h.socket })
  step_to-EndsOnce to_close from m h = record { relay = omega (arith, h.relay); socket = h.socket }
  step_to-EndsOnce to_done from m h = h

  step_from-EndsOnce :
      (to : ToNvme) (from : FromNvme) (m : Machine S)
      → EndsOnce k l (record { to = to; from = from }) m.trace
      → Allows
          (λ from' m'. EndsOnce k l (record { to = to; from = from' }) m'.trace)
          (step_from step link from m)
  unfolding step_from ends_relay is_shutdown
  step_from-EndsOnce to from_read m h =
      Allows-bind _ (λ from' m'. EndsOnce k l (record { to = to; from = from' }) m'.trace)
        (read_relay step link.devfd link.relay_desc 4096) _ m
        (read_relay-EndsOnce link.devfd link.relay_desc 4096 m)
        (λ got m' e. record {
          relay = e.0 ∙ h.relay;
          socket = omega (arith, e.1, h.socket, ended-got got);
        })
  step_from-EndsOnce to (from_write bytes) m h =
      let r = (step (write link.connfd bytes) m.env).0 in
      record {
        relay = h.relay;
        socket = omega (arith, h.socket, ended-write (is_zero r.ret || is_negative r.ret));
      }
  step_from-EndsOnce to from_shutdown m h = record {
    relay = h.relay;
    socket = omega (arith, h.socket);
  }
  step_from-EndsOnce to from_done m h = h

  step_threads-EndsOnce :
      (turn : Turn) (t : Threads) (m : Machine S)
      → EndsOnce k l t m.trace
      → Allows (λ t' m'. EndsOnce k l t' m'.trace) (step_threads step link turn t m)
  unfolding step_threads
  step_threads-EndsOnce turn_to t m h =
      Allows-bind (λ to m'. EndsOnce k l (record t { to = to }) m'.trace)
        (λ t' m'. EndsOnce k l t' m'.trace) (step_to step link t.to) _ m
        (step_to-EndsOnce t.to t.from m h) (λ to m' h'. h')
  step_threads-EndsOnce turn_from t m h =
      Allows-bind (λ from m'. EndsOnce k l (record t { from = from }) m'.trace)
        (λ t' m'. EndsOnce k l t' m'.trace) (step_from step link t.from) _ m
        (step_from-EndsOnce t.to t.from m h) (λ from m' h'. h')

  communicate_ends :
      (turns : List Turn) (t : Threads) (m : Machine S)
      → EndsOnce k l t m.trace
      → Allows (λ t' m'. EndsOnce k l t' m'.trace) (communicate step link turns t m)
  unfolding communicate
  communicate_ends [] t m h = h
  communicate_ends (turn ∷ turns) t m h =
      Allows-bind (λ t' m'. EndsOnce k l t' m'.trace) _ (step_threads step link turn t) _ m
        (step_threads-EndsOnce turn t m h) (communicate_ends turns)

pub communicate-EndsOnce :
    {S : Type 0} (step : Env S) (link : Link) (reads : Reads step) (fills : Fills step)
    (answers : Answers step) (turns : List Turn) (m : Machine S)
    → InSync launched m.trace
    → Ensures
        (λ t' m'. EndsOnce (count ends_relay m.trace) (count is_shutdown m.trace) t' m'.trace)
        (communicate step link turns launched m)
communicate-EndsOnce step link reads fills answers turns m h =
    let k = count ends_relay m.trace in
    let l = count is_shutdown m.trace in
    Ensures-Allows (λ t' m'. InSync t' m'.trace) (λ t' m'. EndsOnce k l t' m'.trace)
      (communicate step link turns launched m)
      (communicate-InSync step link reads fills answers turns launched m h)
      (communicate_ends step link k l turns launched m
        (record { relay = omega arith; socket = omega arith }))
