-- ===== src/Cs/Sys/Keeps.antt =====
-- Code over Cs/Sys that makes calls of given kinds only.
use nvme_csd.Base.{◌≡◌, Bool, true, false, Option, none, some, List, [], ◌∷◌, if◌then◌else◌}
use nvme_csd.Cs.Sys.{Call, Event, Machine, Env, M, pure, lift, ◌>>=◌, sys}
use nvme_csd.Cs.Sys.Allows.{Allows, Allows-bind}

-- Every call of the trace is of the kinds that `ok` tells.
abbrev pub Only : (Call → Bool) → List Event → Type 0
Only ok [] = Unit
Only ok (e ∷ trace) = (ok e.call ≡ true) × Only ok trace

-- The code makes no other calls, wherever it is defined.
pub record Keeps {S A : Type 0} (ok : Call → Bool) (f : M S A) : Type 0 where
  pub at : (m : Machine S) → Only ok m.trace → Allows (λ a m'. Only ok m'.trace) (f m)

module _ {S : Type 0} (ok : Call → Bool) where
  pub Keeps-pure : {A : Type 0} (a : A) → Keeps ok (pure {S = S} a)
  Keeps-pure a = record { at = λ m h. h }

  pub Keeps-lift : {A : Type 0} (x : Option A) → Keeps ok (lift {S = S} x)
  Keeps-lift none = record { at = λ m h. tt }
  Keeps-lift (some a) = record { at = λ m h. h }

  pub Keeps-sys : (step : Env S) (c : Call) → ok c ≡ true → Keeps ok (sys step c)
  Keeps-sys step c e = record { at = λ m h. (e, h) }

  pub Keeps-bind :
      {A B : Type 0} (f : M S A) (g : A → M S B)
      → Keeps ok f
      → ((a : A) → Keeps ok (g a))
      → Keeps ok (f >>= g)
  Keeps-bind f g h k = record {
    at = λ m only.
        Allows-bind (λ a m'. Only ok m'.trace) (λ b m'. Only ok m'.trace) f g m (h.at m only)
          (λ a m' only'. (k a).at m' only');
  }

  pub Keeps-if :
      {A : Type 0} (b : Bool) (f g : M S A)
      → Keeps ok f
      → Keeps ok g
      → Keeps ok (if b then f else g)
  Keeps-if true f g h k = h
  Keeps-if false f g h k = k

pub ruleset keeps_rules = (Keeps-pure, Keeps-lift, Keeps-sys, Keeps-if, Keeps-bind)
