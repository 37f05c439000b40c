-- ===== src/Relay/Threads/Runs.antt =====
-- Runs of the two threads of host/socket_relay/main.c: no byte is lost, repeated or reordered
-- between the calls of a thread, however the threads interleave.
use nvme_csd.Base.{
  ℕ, ◌≤◌, ◌≡◌, refl, sym, ap, arith, ℤ, pos, negsuc, is_negative, is_zero, to_u32, List, [], ◌∷◌,
  ◌++◌, ◌||◌, length, take, drop, field, if◌then◌else◌, take-take,
}
use nvme_csd.Cs.Sys.{Machine, Env, Fills, pure, AdminCommand, admin_passthru, read, write}
use nvme_csd.Cs.Sys.Trace.{Ensures, Ensures-known, Ensures-bind}
use nvme_csd.Cs.Types.{is_success, cs_success, cs_error_in_execution}
use nvme_csd.Relay.{tsp_cs_comm, close_relay, write_relay, read_relay}
use nvme_csd.Relay.Threads.{
  Link, ToNvme, to_read, to_write, to_close, to_done, FromNvme, from_read, from_write,
  from_shutdown, from_done, Threads, Turn, turn_to, turn_from, step_to, step_from, step_threads,
  communicate,
}
use nvme_csd.Relay.Threads.Calls.{
  write_command, write_relay_lem, read_command, read_relay_lem, held_got, held_passed,
}
use nvme_csd.Relay.Threads.Streams.{
  taken, read_bytes, sent_bytes, got_bytes, passed_bytes, stream, pending_to, pending_from, InSync,
  advance, advance_idle, held_read, held_written,
}

-- `read` returns at most the number of bytes asked for, and puts them into the buffer.
abbrev pub Reads : {S : Type 0} → Env S → Type 0
Reads {S} step =
    (fd : ℤ) (count : ℕ) (s : S) (n : ℕ)
    → (step (read fd count) s).0.ret ≡ pos n
    → (n ≤ count) × (n ≤ length (step (read fd count) s).0.buffer)

-- A device that answers a read of the relay puts no more than 4092 bytes behind the length.
abbrev pub Answers : {S : Type 0} → Env S → Type 0
Answers {S} step =
    (c : AdminCommand) (s : S)
    → c.cdw10 ≡ tsp_cs_comm
    → c.cdw11 ≡ 0
    → field 0 4 (step (admin_passthru c) s).0.buffer ≤ 4092

module _ {S : Type 0} (step : Env S) (link : Link) (reads : Reads step) (fills : Fills step)
    (answers : Answers step) where
  step_to-InSync :
      (to : ToNvme) (from : FromNvme) (m : Machine S)
      → InSync (record { to = to; from = from }) m.trace
      → Ensures
          (λ to' m'. InSync (record { to = to'; from = from }) m'.trace)
          (step_to step link to m)
  unfolding step_to close_relay read_bytes sent_bytes got_bytes passed_bytes
  step_to-InSync to_read from m h =
      let r = (step (read link.connfd 4096) m.env).0 in
      let (same, ready) = held_read r.ret r.buffer (reads link.connfd 4096 m.env) in
      record {
        to =
            advance (stream read_bytes m.trace) (stream sent_bytes m.trace) []
              (taken r.ret r.buffer) [] _ h.to same;
        from =
            advance_idle (stream got_bytes m.trace) (stream passed_bytes m.trace)
              (pending_from from) h.from;
        ready = ready;
      }
  step_to-InSync (to_write (negsuc n) bytes) from m h = absurd h.ready
  step_to-InSync (to_write (pos n) bytes) from m h =
      let (some_bytes, small, inside) = h.ready in
      let same : to_u32 (pos n) ≡ n = omega arith in
      let r = (step (admin_passthru (write_command link.devfd link.relay_desc bytes n)) m.env).0 in
      let (held, ready) =
        held_written (is_success (if is_zero r.ret then cs_success else cs_error_in_execution)) in
      let Q =
        λ (to' : ToNvme) (m' : Machine S). InSync (record { to = to'; from = from }) m'.trace in
      rw same (
        Ensures-known Q (write_relay step link.devfd link.relay_desc bytes n) _ m _ _
          (write_relay_lem step link.devfd link.relay_desc bytes n m some_bytes small inside)
          (record {
            to =
                advance (stream read_bytes m.trace) (stream sent_bytes m.trace) (take n bytes) []
                  (take n (take n bytes)) _ h.to
                  (rw (held, take-take n n bytes (omega arith)) refl);
            from =
                advance_idle (stream got_bytes m.trace) (stream passed_bytes m.trace)
                  (pending_from from) h.from;
            ready = ready;
          }))
  step_to-InSync to_close from m h = record {
    to = advance_idle (stream read_bytes m.trace) (stream sent_bytes m.trace) [] h.to;
    from =
        advance_idle (stream got_bytes m.trace) (stream passed_bytes m.trace) (pending_from from)
          h.from;
    ready = tt;
  }
  step_to-InSync to_done from m h = h

  step_from-InSync :
      (to : ToNvme) (from : FromNvme) (m : Machine S)
      → InSync (record { to = to; from = from }) m.trace
      → Ensures
          (λ from' m'. InSync (record { to = to; from = from' }) m'.trace)
          (step_from step link from m)
  unfolding step_from read_bytes sent_bytes got_bytes passed_bytes
  step_from-InSync to from_read m h =
      let c = read_command link.devfd link.relay_desc in
      let r = (step (admin_passthru c) m.env).0 in
      let bytes = take (field 0 4 r.buffer) (drop 4 r.buffer) in
      let Q =
        λ (from' : FromNvme) (m' : Machine S). InSync (record { to = to; from = from' }) m'.trace in
      Ensures-known Q (read_relay step link.devfd link.relay_desc 4096) _ m _ _
        (read_relay_lem step link.devfd link.relay_desc m (answers c m.env refl refl)
          (fills c m.env))
        (record {
          to =
              advance_idle (stream read_bytes m.trace) (stream sent_bytes m.trace) (pending_to to)
                h.to;
          from =
              advance (stream got_bytes m.trace) (stream passed_bytes m.trace) []
                (if is_zero r.ret then bytes else []) [] _ h.from (held_got (is_zero r.ret) bytes);
          ready = h.ready;
        })
  step_from-InSync to (from_write bytes) m h =
      let r = (step (write link.connfd bytes) m.env).0 in
      record {
        to =
            advance_idle (stream read_bytes m.trace) (stream sent_bytes m.trace) (pending_to to)
              h.to;
        from =
            advance (stream got_bytes m.trace) (stream passed_bytes m.trace) bytes [] bytes _ h.from
              (ap (λ x. bytes ++ x) (sym (held_passed (is_zero r.ret || is_negative r.ret))));
        ready = h.ready;
      }
  step_from-InSync to from_shutdown m h = record {
    to = advance_idle (stream read_bytes m.trace) (stream sent_bytes m.trace) (pending_to to) h.to;
    from = advance_idle (stream got_bytes m.trace) (stream passed_bytes m.trace) [] h.from;
    ready = h.ready;
  }
  step_from-InSync to from_done m h = h

  step_threads-InSync :
      (turn : Turn) (t : Threads) (m : Machine S)
      → InSync t m.trace
      → Ensures (λ t' m'. InSync t' m'.trace) (step_threads step link turn t m)
  unfolding step_threads
  step_threads-InSync turn_to t m h =
      Ensures-bind (λ to m'. InSync (record t { to = to }) m'.trace) (λ t' m'. InSync t' m'.trace)
        (step_to step link t.to) (λ to. pure (record t { to = to })) m
        (step_to-InSync t.to t.from m h) (λ to m' h'. h')
  step_threads-InSync turn_from t m h =
      Ensures-bind (λ from m'. InSync (record t { from = from }) m'.trace)
        (λ t' m'. InSync t' m'.trace) (step_from step link t.from)
        (λ from. pure (record t { from = from })) m (step_from-InSync t.to t.from m h)
        (λ from m' h'. h')

  -- Where `read` and the device answer as documented, and whatever fails, from threads that are in
  -- order as below: in every interleaving of the threads no access is out of range and no assertion
  -- fails; and at every moment, in each direction, the bytes taken in are those passed on (sent in
  -- a command, or handed to `write`), in the same order, followed by those that the thread holds.
  pub communicate-InSync :
      (turns : List Turn) (t : Threads) (m : Machine S)
      → InSync t m.trace
      → Ensures (λ t' m'. InSync t' m'.trace) (communicate step link turns t m)
  unfolding communicate
  communicate-InSync [] t m h = h
  communicate-InSync (turn ∷ turns) t m h =
      let Q = λ (t' : Threads) (m' : Machine S). InSync t' m'.trace in
      Ensures-bind Q Q (step_threads step link turn t) (communicate step link turns) m
        (step_threads-InSync turn t m h) (communicate-InSync turns)
