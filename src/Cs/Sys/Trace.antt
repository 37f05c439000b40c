-- ===== src/Cs/Sys/Trace.antt =====
-- Which descriptors a run opened and closed, read off its trace.
use nvme_csd.Base.{
  ℕ, ◌+◌, ◌≡◌, refl, sym, subst, ap, ℤ, is_negative, eqb_ℤ, List, [], ◌∷◌, Bool, true, false, not,
  ◌&&◌, Option, none, some, if◌then◌else◌,
}
use nvme_csd.Cs.Sys.{Call, nvme_open, close, open_dev_mem, Reply, Event, Machine, M, ◌>>=◌}

-- The event gave out descriptor `fd`.
unfoldable pub is_open : ℤ → Call → Reply → Bool
is_open fd (nvme_open name) r = not (is_negative r.ret) && eqb_ℤ r.ret fd
is_open fd open_dev_mem r = not (is_negative r.ret) && eqb_ℤ r.ret fd
is_open fd _ r = false

unfoldable pub is_close : ℤ → Call → Bool
is_close fd (close fd') = eqb_ℤ fd' fd
is_close fd _ = false

abbrev pub count_if : Bool → ℕ → ℕ
count_if true n = n + 1
count_if false n = n

-- How often `fd` was opened, and closed.
abbrev pub opens : ℤ → List Event → ℕ
opens fd [] = 0
opens fd (e ∷ trace) = count_if (is_open fd e.call e.reply) (opens fd trace)

abbrev pub closes : ℤ → List Event → ℕ
closes fd [] = 0
closes fd (e ∷ trace) = count_if (is_close fd e.call) (closes fd trace)

-- From `m` to `m'` every descriptor was closed as often as it was opened.
abbrev pub IsBalanced : {S : Type 0} → Machine S → Machine S → Type 0
IsBalanced m m' =
    (fd : ℤ) → opens fd m'.trace + closes fd m.trace ≡ closes fd m'.trace + opens fd m.trace

-- From `m` to `m'` the descriptor `fd` was closed once, and nothing else opened or closed.
abbrev pub ClosesOnce : {S : Type 0} → ℤ → Machine S → Machine S → Type 0
ClosesOnce fd m m' =
    (g : ℤ)
    → (opens g m'.trace ≡ opens g m.trace)
      × (closes g m'.trace ≡ count_if (eqb_ℤ fd g) (closes g m.trace))

-- The run is defined, and its result and last state are as `P` says.
abbrev pub Ensures : {S A : Type 0} → (A → Machine S → Type 0) → Option (A × Machine S) → Type 0
Ensures P none = ⊥
Ensures P (some (a, m)) = P a m

-- The run is defined.
abbrev pub IsDefined : {S A : Type 0} → Option (A × Machine S) → Type 0
IsDefined r = Ensures (λ a m'. Unit {0}) r

-- From `m` to `m'` no descriptor was opened or closed.
abbrev pub IsQuiet : {S : Type 0} → Machine S → Machine S → Type 0
IsQuiet m m' =
    (g : ℤ) → (opens g m'.trace ≡ opens g m.trace) × (closes g m'.trace ≡ closes g m.trace)

pub Ensures-bind :
    {S A B : Type 0} (P : A → Machine S → Type 0) (Q : B → Machine S → Type 0) (f : M S A)
    (g : A → M S B) (m : Machine S)
    → Ensures P (f m)
    → ((a : A) (m' : Machine S) → P a m' → Ensures Q (g a m'))
    → Ensures Q ((f >>= g) m)
Ensures-bind {S} {A} P Q f g m first next = go (f m) first
  where
    go :
        (r : Option (A × Machine S))
        → Ensures P r
        → Ensures Q (elim r [ none ↦ none | some (a, m') ↦ g a m' ])
    go none h = absurd h
    go (some (a, m')) h = next a m' h

pub Ensures-map :
    {S A : Type 0} (P Q : A → Machine S → Type 0) (r : Option (A × Machine S))
    → Ensures P r
    → ((a : A) (m' : Machine S) → P a m' → Q a m')
    → Ensures Q r
Ensures-map P Q none h k = h
Ensures-map P Q (some (a, m')) h k = k a m' h

-- A run that is defined ends as it does.
pub Ensures-same :
    {S A : Type 0} (r : Option (A × Machine S)) → IsDefined r → Ensures (λ a m'. r ≡ some (a, m')) r
Ensures-same none h = h
Ensures-same (some (a, m)) h = refl

pub Ensures-both :
    {S A : Type 0} (P Q : A → Machine S → Type 0) (r : Option (A × Machine S))
    → Ensures P r
    → Ensures Q r
    → Ensures (λ a m'. P a m' × Q a m') r
Ensures-both P Q none h k = h
Ensures-both P Q (some (a, m)) h k = (h, k)

pub Ensures-if :
    {S A : Type 0} (Q : A → Machine S → Type 0) (b : Bool) (f g : M S A) (m : Machine S)
    → (b ≡ true → Ensures Q (f m))
    → (b ≡ false → Ensures Q (g m))
    → Ensures Q ((if b then f else g) m)
Ensures-if Q true f g m h k = h refl
Ensures-if Q false f g m h k = k refl

-- The first call is known.
pub Ensures-known :
    {S A B : Type 0} (Q : B → Machine S → Type 0) (f : M S A) (g : A → M S B) (m : Machine S)
    (a : A) (m' : Machine S)
    → f m ≡ some (a, m')
    → Ensures Q (g a m')
    → Ensures Q ((f >>= g) m)
Ensures-known Q f g m a m' e h =
    subst (λ r. Ensures Q (elim r [ none ↦ none | some (b, m₁) ↦ g b m₁ ])) (sym e) h

pub bind_known :
    {S A B : Type 0} (f : M S A) (g : A → M S B) (m : Machine S) (a : A) (m' : Machine S)
    → f m ≡ some (a, m')
    → (f >>= g) m ≡ g a m'
bind_known f g m a m' e = ap (λ r. elim r [ none ↦ none | some (b, m₁) ↦ g b m₁ ]) e

pub bind_undefined :
    {S A B : Type 0} (f : M S A) (g : A → M S B) (m : Machine S) → f m ≡ none → (f >>= g) m ≡ none
bind_undefined f g m e = ap (λ r. elim r [ none ↦ none | some (a, m') ↦ g a m' ]) e
