-- ===== src/Relay/Threads/Settles.antt =====
-- What the device and the client take of the bytes that the threads of host/socket_relay/main.c pass
-- on, where they refuse nothing.
use nvme_csd.Base.{
  sym, arith, take_all, ==_iff, ℕ, ◌≡◌, refl, ap, ◌∙◌, ℤ, pos, is_zero, to_u32, List, [], ◌∷◌, ◌++◌,
  Option, none, Bool, true, false, ◌&&◌, ◌==◌, length, take, min, ltb, memcpy_local, if◌then◌else◌,
}
use nvme_csd.Cs.Sys.{
  Call, AdminCommand, admin_passthru, read, write, shutdown, Reply, Event, Machine, Env, after,
}
use nvme_csd.Cs.Sys.Allows.{Allows, Allows-bind, Allows-lift, Allows-if}
use nvme_csd.Relay.{tsp_cs_comm, close_relay, write_relay, read_relay}
use nvme_csd.Relay.Threads.{
  Link, ToNvme, to_read, to_write, to_close, to_done, FromNvme, from_read, from_write,
  from_shutdown, from_done, Threads, Turn, turn_to, turn_from, step_to, step_from, step_threads,
  communicate,
}
use nvme_csd.Relay.Threads.Streams.{taken, stream, sent_bytes, passed_bytes}

-- The bytes of a command to the relay that the device accepted, and those that the socket took.
unfoldable pub accepted_bytes : Call → Reply → List ℕ
accepted_bytes (admin_passthru c) r =
    if (c.cdw10 == tsp_cs_comm && c.cdw11 == 1) && is_zero r.ret then take c.cdw12 c.payload else []
accepted_bytes _ r = []

unfoldable pub delivered_bytes : Call → Reply → List ℕ
delivered_bytes (write fd bytes) r = taken r.ret bytes
delivered_bytes _ r = []

-- A device and a socket that refuse nothing.
pub record Takes {S : Type 0} (step : Env S) : Type 0 where
  pub device :
      (c : AdminCommand) (s : S)
      → c.cdw10 ≡ tsp_cs_comm
      → c.cdw11 ≡ 1
      → is_zero (step (admin_passthru c) s).0.ret ≡ true
  pub socket :
      (fd : ℤ) (bytes : List ℕ) (s : S) → (step (write fd bytes) s).0.ret ≡ pos (length bytes)

-- All that was passed on was taken.
pub record IsSettled (trace : List Event) : Type 0 where
  pub to : stream sent_bytes trace ≡ stream accepted_bytes trace
  pub from : stream passed_bytes trace ≡ stream delivered_bytes trace

-- A test that holds where the two others do changes nothing.
and_gate :
    (p q z : Bool) (x : List ℕ)
    → (p ≡ true → q ≡ true → z ≡ true)
    → (if p && q then x else []) ≡ (if (p && q) && z then x else [])
and_gate true true z x h = rw (h refl refl) refl
and_gate true false z x h = refl
and_gate false q z x h = refl

module _ {S : Type 0} (step : Env S) (takes : Takes step) where
  -- No call of such a system leaves anything over.
  pub answer-IsSettled :
      (c : Call) (s : S) (trace : List Event)
      → IsSettled trace
      → IsSettled (record { call = c; reply = (step c s).0 } ∷ trace)
  unfolding sent_bytes accepted_bytes passed_bytes delivered_bytes
  answer-IsSettled (admin_passthru c) s trace h = record {
    to =
        ap (λ (l : List ℕ). l ++ sent_bytes (admin_passthru c) (step (admin_passthru c) s).0) h.to
        ∙ ap (λ (l : List ℕ). stream accepted_bytes trace ++ l)
            (and_gate (c.cdw10 == tsp_cs_comm) (c.cdw11 == 1) _ (take c.cdw12 c.payload) (λ e k.
              takes.device c s ((==_iff c.cdw10 tsp_cs_comm).0 e) ((==_iff c.cdw11 1).0 k)));
    from = ap (λ (l : List ℕ). l ++ []) h.from;
  }
  answer-IsSettled (write fd bytes) s trace h = record {
    to = ap (λ (l : List ℕ). l ++ []) h.to;
    from =
        ap (λ (l : List ℕ). l ++ bytes) h.from
        ∙ ap (λ (l : List ℕ). stream delivered_bytes trace ++ l)
            (sym (
              ap (λ (z : ℤ). taken z bytes) (takes.socket fd bytes s)
              ∙ take_all (length bytes) bytes (omega arith)));
  }
  answer-IsSettled _ s trace h = record {
    to = ap (λ (l : List ℕ). l ++ []) h.to;
    from = ap (λ (l : List ℕ). l ++ []) h.from;
  }

  abbrev pub Settled : {A : Type 0} → Option (A × Machine S) → Type 0
  Settled r = Allows (λ a m'. IsSettled m'.trace) r

  write_relay-Settled :
      (fd desc : ℤ) (bytes : List ℕ) (len : ℕ) (m : Machine S)
      → IsSettled m.trace
      → Settled (write_relay step fd desc bytes len m)
  unfolding write_relay
  write_relay-Settled fd desc bytes len m h =
      Allows-lift _ (if ltb 0 len then memcpy_local 4096 bytes (min len 4096) else none) _ m
        (λ payload. answer-IsSettled _ m.env m.trace h)

  step_to-Settled :
      (link : Link) (to : ToNvme) (m : Machine S)
      → IsSettled m.trace
      → Settled (step_to step link to m)
  unfolding step_to close_relay
  step_to-Settled link to_read m h = answer-IsSettled (read link.connfd 4096) m.env m.trace h
  step_to-Settled link (to_write len bytes) m h =
      Allows-bind (λ a m'. IsSettled m'.trace) _
        (write_relay step link.devfd link.relay_desc bytes (to_u32 len)) _ m
        (write_relay-Settled link.devfd link.relay_desc bytes (to_u32 len) m h) (λ status m' h'. h')
  step_to-Settled link to_close m h = answer-IsSettled _ m.env m.trace h
  step_to-Settled link to_done m h = h

  step_from-Settled :
      (link : Link) (from : FromNvme) (m : Machine S)
      → IsSettled m.trace
      → Settled (step_from step link from m)
  unfolding step_from read_relay
  step_from-Settled link from_read m h =
      Allows-bind (λ a m'. IsSettled m'.trace) _ (read_relay step link.devfd link.relay_desc 4096) _
        m
        (Allows-if (λ got m'. IsSettled m'.trace) _ _ _ (after step _ m)
          (λ got. answer-IsSettled _ m.env m.trace h))
        (λ got m' h'. h')
  step_from-Settled link (from_write bytes) m h =
      answer-IsSettled (write link.connfd bytes) m.env m.trace h
  step_from-Settled link from_shutdown m h = answer-IsSettled (shutdown link.connfd) m.env m.trace h
  step_from-Settled link from_done m h = h

  pub communicate-Settled :
      (link : Link) (turns : List Turn) (t : Threads) (m : Machine S)
      → IsSettled m.trace
      → Settled (communicate step link turns t m)
  unfolding communicate step_threads
  communicate-Settled link [] t m h = h
  communicate-Settled link (turn_to ∷ turns) t m h =
      Allows-bind (λ a m'. IsSettled m'.trace) _ (step_threads step link turn_to t) _ m
        (Allows-bind (λ a m'. IsSettled m'.trace) _ (step_to step link t.to) _ m
          (step_to-Settled link t.to m h) (λ to m' h'. h'))
        (λ t' m' h'. communicate-Settled link turns t' m' h')
  communicate-Settled link (turn_from ∷ turns) t m h =
      Allows-bind (λ a m'. IsSettled m'.trace) _ (step_threads step link turn_from t) _ m
        (Allows-bind (λ a m'. IsSettled m'.trace) _ (step_from step link t.from) _ m
          (step_from-Settled link t.from m h) (λ from m' h'. h'))
        (λ t' m' h'. communicate-Settled link turns t' m' h')
