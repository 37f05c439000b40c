-- ===== src/Relay/Threads/Joins.antt =====
-- The two threads of host/socket_relay/main.c come to their ends where the client and the device
-- have only so much to say.
use nvme_csd.Base.{ℕ, suc, ◌+◌, ◌-◌, ◌*◌, ◌≤◌, ◌≡◌, refl, arith, List, [], ◌∷◌}
use nvme_csd.Cs.Sys.{Machine, Env}
use nvme_csd.Cs.Sys.Allows.{Allows, Allows-bind, Allows-both, Allows-map}
use nvme_csd.Relay.Threads.{
  Link, ToNvme, to_read, to_write, to_close, to_done, FromNvme, from_read, from_write,
  from_shutdown, from_done, Threads, Turn, turn_to, turn_from, step_to, step_from, step_threads,
  communicate,
}
use nvme_csd.Relay.Threads.Spares.{step_to-left, step_from-left}
use nvme_csd.Relay.Threads.Needs.{
  Leaves, Quiets, need_to, need_from, need_to_mono, need_from_mono, step_to-need, step_from-need,
}
use nvme_csd.Relay.Threads.{launched}

-- How many of the turns a thread has.
abbrev pub to_turns : List Turn → ℕ
to_turns [] = 0
to_turns (turn_to ∷ turns) = suc (to_turns turns)
to_turns (turn_from ∷ turns) = to_turns turns

abbrev pub from_turns : List Turn → ℕ
from_turns [] = 0
from_turns (turn_to ∷ turns) = from_turns turns
from_turns (turn_from ∷ turns) = suc (from_turns turns)

-- Both threads are at their ends.
abbrev pub AreDone : {S : Type 0} → Threads → Machine S → Type 0
AreDone t m = (t.to ≡ to_done) × (t.from ≡ from_done)

-- A thread that needs no more turn is at its end.
needless-to : (to : ToNvme) (left : ℕ) → need_to to left ≤ 0 → to ≡ to_done
needless-to to_read left h = absurd (omega arith)
needless-to (to_write len bytes) left h = absurd (omega arith)
needless-to to_close left h = absurd (omega arith)
needless-to to_done left h = refl

needless-from : (from : FromNvme) (left : ℕ) → need_from from left ≤ 0 → from ≡ from_done
needless-from from_read left h = absurd (omega arith)
needless-from (from_write bytes) left h = absurd (omega arith)
needless-from from_shutdown left h = absurd (omega arith)
needless-from from_done left h = refl

module _ {S : Type 0} (step : Env S) (link : Link) (to_left from_left : S → ℕ) (c d : ℕ)
    (leaves : Leaves step to_left c) (quiets : Quiets step from_left d) where
  -- The threads need at most `k` and `l` turns more.
  pub record Needs (k l : ℕ) (t : Threads) (m : Machine S) : Type 0 where
    pub to : need_to t.to (to_left m.env) ≤ k
    pub from : need_from t.from (from_left m.env) ≤ l

  step_threads-Needs :
      (turn : Turn) (k l : ℕ) (t : Threads) (m : Machine S)
      → Needs k l t m
      → Allows
          (λ t' m'. Needs (k - to_turns (turn ∷ [])) (l - from_turns (turn ∷ [])) t' m')
          (step_threads step link turn t m)
  unfolding step_threads
  step_threads-Needs turn_to k l t m h =
      let P = λ (to' : ToNvme) (m' : Machine S).
        (need_to to' (to_left m'.env) ≤ need_to t.to (to_left m.env) - 1)
        × (from_left m'.env ≤ from_left m.env) in
      Allows-bind P _ (step_to step link t.to) _ m
        (Allows-both _ _ (step_to step link t.to m) (step_to-need step link to_left c leaves t.to m)
          (step_to-left step link from_left quiets.keeps t.to m))
        (λ to' m' g. record {
          to = omega (arith, g.0, h.to);
          from =
              omega (arith, h.from, need_from_mono t.from (from_left m'.env) (from_left m.env) g.1);
        })
  step_threads-Needs turn_from k l t m h =
      let P = λ (from' : FromNvme) (m' : Machine S).
        (need_from from' (from_left m'.env) ≤ need_from t.from (from_left m.env) - 1)
        × (to_left m'.env ≤ to_left m.env) in
      Allows-bind P _ (step_from step link t.from) _ m
        (Allows-both _ _ (step_from step link t.from m)
          (step_from-need step link from_left d quiets t.from m)
          (step_from-left step link to_left leaves.keeps t.from m))
        (λ from' m' g. record {
          to = omega (arith, h.to, need_to_mono t.to (to_left m'.env) (to_left m.env) g.1);
          from = omega (arith, g.0, h.from);
        })

  communicate-Needs :
      (turns : List Turn) (k l : ℕ) (t : Threads) (m : Machine S)
      → Needs k l t m
      → Allows
          (λ t' m'. Needs (k - to_turns turns) (l - from_turns turns) t' m')
          (communicate step link turns t m)
  unfolding communicate
  communicate-Needs [] k l t m h = record { to = omega (arith, h.to); from = omega (arith, h.from) }
  communicate-Needs (turn_to ∷ turns) k l t m h =
      Allows-bind _ _ (step_threads step link turn_to t) _ m (step_threads-Needs turn_to k l t m h)
        (λ t' m' g.
          Allows-map (Needs (k - 1 - to_turns turns) (l - 0 - from_turns turns))
            (Needs (k - suc (to_turns turns)) (l - from_turns turns))
            (communicate step link turns t' m') (communicate-Needs turns (k - 1) (l - 0) t' m' g)
            (λ t'' m'' n. record { to = omega (arith, n.to); from = omega (arith, n.from) }))
  communicate-Needs (turn_from ∷ turns) k l t m h =
      Allows-bind _ _ (step_threads step link turn_from t) _ m
        (step_threads-Needs turn_from k l t m h)
        (λ t' m' g.
          Allows-map (Needs (k - 0 - to_turns turns) (l - 1 - from_turns turns))
            (Needs (k - to_turns turns) (l - suc (from_turns turns)))
            (communicate step link turns t' m') (communicate-Needs turns (k - 0) (l - 1) t' m' g)
            (λ t'' m'' n. record { to = omega (arith, n.to); from = omega (arith, n.from) }))

  -- Both threads are at their ends after enough turns each, wherever the run is defined.
  pub communicate_joins :
      (turns : List Turn) (m : Machine S)
      → 2 * c + 2 ≤ to_turns turns
      → 2 * d + 2 ≤ from_turns turns
      → Allows AreDone (communicate step link turns launched m)
  communicate_joins turns m enough_to enough_from =
      Allows-map (Needs (2 * c + 2 - to_turns turns) (2 * d + 2 - from_turns turns)) AreDone
        (communicate step link turns launched m)
        (communicate-Needs turns (2 * c + 2) (2 * d + 2) launched m (record {
          to = omega (arith, leaves.bound m.env);
          from = omega (arith, quiets.bound m.env);
        }))
        (λ t m' h. (
          needless-to t.to (to_left m'.env) (omega (arith, h.to)),
          needless-from t.from (from_left m'.env) (omega (arith, h.from)),
        ))
