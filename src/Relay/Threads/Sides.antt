-- ===== src/Relay/Threads/Sides.antt =====
-- Where the client's words and the device's messages do not depend on each other, it does not matter
-- how the threads of host/socket_relay/main.c take turns.
use nvme_csd.Base.{
  ℕ, zero, suc, ◌≡◌, refl, sym, ◌∙◌, to_u32, List, [], ◌∷◌, Option, none, some, Option-cases, inl,
  inr, Bool, true, false, not, ◌&&◌, ◌==◌, ltb, min, memcpy_local, if◌then◌else◌,
}
use nvme_csd.Cs.Sys.{Machine, Env, M, pure, lift, ◌>>=◌, Call, admin_passthru, read, Event}
use nvme_csd.Relay.{tsp_cs_comm, close_relay, write_relay, read_relay}
use nvme_csd.Relay.Threads.{
  Link, ToNvme, to_read, to_write, to_close, to_done, FromNvme, from_read, from_write,
  from_shutdown, from_done, Threads, Turn, turn_to, turn_from, step_to, step_from, step_threads,
  communicate,
}
use nvme_csd.Relay.Threads.Joins.{to_turns, from_turns}

-- The calls on the way to the device: what the client says, and all commands but those that read from
-- the relay.
abbrev pub is_inward : Call → Bool
is_inward (admin_passthru c) = not (c.cdw10 == tsp_cs_comm && c.cdw11 == 0)
is_inward (read fd n) = true
is_inward _ = false

-- A system of two independent sides, one for each way.
abbrev pub both : {A B : Type 0} → Env A → Env B → Env (A × B)
both f g c (a, b) =
    let (r, a') = f c a in let (q, b') = g c b in if is_inward c then (r, (a', b)) else (q, (a, b'))

-- The calls of one way, the latest first.
abbrev pub inward : List Event → List Event
inward [] = []
inward (e ∷ trace) = if is_inward e.call then e ∷ inward trace else inward trace

abbrev pub outward : List Event → List Event
outward [] = []
outward (e ∷ trace) = if is_inward e.call then outward trace else e ∷ outward trace

-- What each side has seen.
abbrev pub to_side : {A B : Type 0} → Machine (A × B) → Machine A
to_side m = record { env = m.env.0; trace = inward m.trace }

abbrev pub from_side : {A B : Type 0} → Machine (A × B) → Machine B
from_side m = record { env = m.env.1; trace = outward m.trace }

-- A run over both sides is one over the first, and leaves the second alone; and the other way round.
abbrev LiftsTo :
    {A B X : Type 0} → Machine B → Option (X × Machine (A × B)) → Option (X × Machine A) → Type 0
LiftsTo b none none = Unit
LiftsTo b (some (x, m)) (some (y, a)) = (x ≡ y) × (to_side m ≡ a) × (from_side m ≡ b)
LiftsTo b none (some r) = ⊥
LiftsTo b (some r) none = ⊥

abbrev LiftsFrom :
    {A B X : Type 0} → Machine A → Option (X × Machine (A × B)) → Option (X × Machine B) → Type 0
LiftsFrom a none none = Unit
LiftsFrom a (some (x, m)) (some (y, b)) = (x ≡ y) × (from_side m ≡ b) × (to_side m ≡ a)
LiftsFrom a none (some r) = ⊥
LiftsFrom a (some r) none = ⊥

-- Each thread alone, for as many turns.
pub run_to : {A : Type 0} → Env A → Link → ℕ → ToNvme → M A ToNvme
run_to f link zero to = pure to
run_to f link (suc n) to = do to' ← step_to f link to; run_to f link n to'

pub run_from : {B : Type 0} → Env B → Link → ℕ → FromNvme → M B FromNvme
run_from g link zero from = pure from
run_from g link (suc n) from = do from' ← step_from g link from; run_from g link n from'

module _ {A B : Type 0} (f : Env A) (g : Env B) (link : Link) where
  step_to-LiftsTo :
      (to : ToNvme) (m : Machine (A × B))
      → LiftsTo (from_side m) (step_to (both f g) link to m) (step_to f link to (to_side m))
  unfolding step_to write_relay close_relay
  step_to-LiftsTo to_read m = (refl, refl, refl)
  step_to-LiftsTo (to_write len bytes) m =
      let n = to_u32 len in
      elim (Option-cases (if ltb 0 n then memcpy_local 4096 bytes (min n 4096) else none)) [
        | inl wrong ↦ rw wrong tt
        | inr (payload, fits) ↦ rw fits (refl, refl, refl)
      ]
  step_to-LiftsTo to_close m = (refl, refl, refl)
  step_to-LiftsTo to_done m = (refl, refl, refl)

  -- What a read brings is lifted on both sides, or on neither.
  lift-LiftsFrom :
      {X Y : Type 0} (z : Bool) (got : Option X) (y : X) (next : X → Y) (m : Machine (A × B))
      → LiftsFrom
          (to_side m)
          (((λ m'. (if z then lift got else pure y) m') >>= (λ x. pure (next x))) m)
          (((λ m'. (if z then lift got else pure y) m') >>= (λ x. pure (next x))) (from_side m))
  lift-LiftsFrom true none y next m = tt
  lift-LiftsFrom true (some x) y next m = (refl, refl, refl)
  lift-LiftsFrom false got y next m = (refl, refl, refl)

  step_from-LiftsFrom :
      (from : FromNvme) (m : Machine (A × B))
      → LiftsFrom
          (to_side m)
          (step_from (both f g) link from m)
          (step_from g link from (from_side m))
  unfolding step_from read_relay
  step_from-LiftsFrom from_read m = lift-LiftsFrom _ _ _ _ _
  step_from-LiftsFrom (from_write bytes) m = (refl, refl, refl)
  step_from-LiftsFrom from_shutdown m = (refl, refl, refl)
  step_from-LiftsFrom from_done m = (refl, refl, refl)

-- Both threads, each with its side.
abbrev pub sides :
    {A B : Type 0}
    → Option (Threads × Machine (A × B))
    → Option ((ToNvme × Machine A) × (FromNvme × Machine B))
sides none = none
sides (some (t, m)) = some ((t.to, to_side m), (t.from, from_side m))

abbrev pub combine : {X Y : Type 0} → Option X → Option Y → Option (X × Y)
combine (some x) (some y) = some (x, y)
combine (some x) none = none
combine none y = none

combine-none : {X Y : Type 0} (x : Option X) → combine {X = X} {Y = Y} x none ≡ none
combine-none none = refl
combine-none (some x) = refl

module _ {A B : Type 0} (f : Env A) (g : Env B) (link : Link) where
  sides-to :
      (n k : ℕ) (turns : List Turn) (t : Threads) (b : Machine B)
      (r : Option (ToNvme × Machine (A × B))) (ra : Option (ToNvme × Machine A))
      → LiftsTo b r ra
      → ((to : ToNvme) (m : Machine (A × B))
          → sides (communicate (both f g) link turns (record t { to = to }) m)
            ≡ combine (run_to f link n to (to_side m)) (run_from g link k t.from (from_side m)))
      → (m : Machine (A × B)) (a : Machine A)
      → sides (
          (((λ _. r) >>= (λ to. pure (record t { to = to }))) >>= communicate (both f g) link turns)
            m)
        ≡ combine (((λ _. ra) >>= run_to f link n) a) (run_from g link k t.from b)
  sides-to n k turns t b none none h ih m a = refl
  sides-to n k turns t b (some (x, m')) (some (y, a')) h ih m a =
      ih x m' ∙ rw h.0 (rw h.1 (rw h.2 refl))
  sides-to n k turns t b none (some r) h ih m a = absurd h
  sides-to n k turns t b (some r) none h ih m a = absurd h

  sides-from :
      (n k : ℕ) (turns : List Turn) (t : Threads) (a : Machine A)
      (r : Option (FromNvme × Machine (A × B))) (rb : Option (FromNvme × Machine B))
      → LiftsFrom a r rb
      → ((from : FromNvme) (m : Machine (A × B))
          → sides (communicate (both f g) link turns (record t { from = from }) m)
            ≡ combine (run_to f link n t.to (to_side m)) (run_from g link k from (from_side m)))
      → (m : Machine (A × B)) (b : Machine B)
      → sides (
          (((λ _. r) >>= (λ from. pure (record t { from = from })))
              >>= communicate (both f g) link turns)
            m)
        ≡ combine (run_to f link n t.to a) (((λ _. rb) >>= run_from g link k) b)
  sides-from n k turns t a none none h ih m b = sym (combine-none (run_to f link n t.to a))
  sides-from n k turns t a (some (x, m')) (some (y, b')) h ih m b =
      ih x m' ∙ rw h.0 (rw h.1 (rw h.2 refl))
  sides-from n k turns t a none (some r) h ih m b = absurd h
  sides-from n k turns t a (some r) none h ih m b = absurd h

  -- Where the system has two sides that do not depend on each other, one that answers `read` and the
  -- commands to the device but the one that reads from the relay, and one that answers all other
  -- calls, any order in which the threads take turns leaves each thread where it would stand had it
  -- run alone on its side for as many turns, and the side with the same state and the same calls; and
  -- the run is undefined just where one of the two would be.
  pub communicate-sides :
      (turns : List Turn) (t : Threads) (m : Machine (A × B))
      → sides (communicate (both f g) link turns t m)
        ≡ combine
            (run_to f link (to_turns turns) t.to (to_side m))
            (run_from g link (from_turns turns) t.from (from_side m))
  unfolding communicate step_threads run_to run_from
  communicate-sides [] t m = refl
  communicate-sides (turn_to ∷ turns) t m =
      sides-to (to_turns turns) (from_turns turns) turns t (from_side m) _ _
        (step_to-LiftsTo f g link t.to m)
        (λ to m'. communicate-sides turns (record t { to = to }) m') m (to_side m)
  communicate-sides (turn_from ∷ turns) t m =
      sides-from (to_turns turns) (from_turns turns) turns t (to_side m) _ _
        (step_from-LiftsFrom f g link t.from m)
        (λ from m'. communicate-sides turns (record t { from = from }) m') m (from_side m)
