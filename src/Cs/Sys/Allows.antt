-- ===== src/Cs/Sys/Allows.antt =====
-- What a run of code over Cs/Sys leaves, wherever it is defined.
use nvme_csd.Base.{Bool, true, false, Option, none, some, if◌then◌else◌}
use nvme_csd.Cs.Sys.{Machine, M, pure, lift, ◌>>=◌}
use nvme_csd.Cs.Sys.Trace.{Ensures}

-- If a call is defined, its result is as `P` says.
abbrev pub Allows : {S A : Type 0} → (A → Machine S → Type 0) → Option (A × Machine S) → Type 0
Allows P none = Unit
Allows P (some (a, m)) = P a m

pub Allows-bind :
    {S A B : Type 0} (P : A → Machine S → Type 0) (Q : B → Machine S → Type 0) (f : M S A)
    (g : A → M S B) (m : Machine S)
    → Allows P (f m)
    → ((a : A) (m' : Machine S) → P a m' → Allows Q (g a m'))
    → Allows Q ((f >>= g) m)
Allows-bind {S} {A} P Q f g m first next = go (f m) first
  where
    go :
        (r : Option (A × Machine S))
        → Allows P r
        → Allows Q (elim r [ none ↦ none | some (a, m') ↦ g a m' ])
    go none h = tt
    go (some (a, m')) h = next a m' h

-- A partial operation leaves the machine as it is.
pub Allows-lift :
    {S A B : Type 0} (Q : B → Machine S → Type 0) (x : Option A) (g : A → M S B) (m : Machine S)
    → ((a : A) → Allows Q (g a m))
    → Allows Q ((lift x >>= g) m)
Allows-lift Q none g m h = tt
Allows-lift Q (some a) g m h = h a

pub Allows-if :
    {S A : Type 0} (P : A → Machine S → Type 0) (b : Bool) (x : Option A) (y : A) (m : Machine S)
    → ((a : A) → P a m)
    → Allows P ((if b then lift x else pure y) m)
Allows-if P true none y m h = tt
Allows-if P true (some a) y m h = h a
Allows-if P false x y m h = h y

pub Allows-map :
    {S A : Type 0} (P Q : A → Machine S → Type 0) (r : Option (A × Machine S))
    → Allows P r
    → ((a : A) (m' : Machine S) → P a m' → Q a m')
    → Allows Q r
Allows-map P Q none h k = tt
Allows-map P Q (some (a, m)) h k = k a m h

pub Allows-cond :
    {S A : Type 0} (Q : A → Machine S → Type 0) (b : Bool) (f g : M S A) (m : Machine S)
    → Allows Q (f m)
    → Allows Q (g m)
    → Allows Q ((if b then f else g) m)
Allows-cond Q true f g m h k = h
Allows-cond Q false f g m h k = k

pub Allows-both :
    {S A : Type 0} (P Q : A → Machine S → Type 0) (r : Option (A × Machine S))
    → Allows P r
    → Allows Q r
    → Allows (λ a m'. P a m' × Q a m') r
Allows-both P Q none h k = tt
Allows-both P Q (some (a, m)) h k = (h, k)

-- What comes after a call, whatever the call does.
pub Allows-next :
    {S A B : Type 0} (Q : B → Machine S → Type 0) (f : M S A) (g : A → M S B) (m : Machine S)
    → ((a : A) (m' : Machine S) → Allows Q (g a m'))
    → Allows Q ((f >>= g) m)
Allows-next {S} {A} Q f g m next = go (f m)
  where
    go : (r : Option (A × Machine S)) → Allows Q (elim r [ none ↦ none | some (a, m') ↦ g a m' ])
    go none = tt
    go (some (a, m')) = next a m'

-- A call that is defined does what it allows.
pub Ensures-Allows :
    {S A : Type 0} (P Q : A → Machine S → Type 0) (r : Option (A × Machine S))
    → Ensures P r
    → Allows Q r
    → Ensures Q r
Ensures-Allows P Q none h k = h
Ensures-Allows P Q (some (a, m)) h k = k

-- A call that is defined, and does so.
pub Allows-Ensures :
    {S A : Type 0} (P : A → Machine S → Type 0) (r : Option (A × Machine S))
    → Ensures P r
    → Allows P r
Allows-Ensures P none h = tt
Allows-Ensures P (some (a, m)) h = h
