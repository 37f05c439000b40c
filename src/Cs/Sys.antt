-- ===== src/Cs/Sys.antt =====
-- The operating system and the device below host/snia_cs_api/cs_api_nvme_tsp.c, host/demos and
-- host/socket_relay/main.c: each call is answered by an environment that the model does not fix,
-- and is recorded.
pub mod Trace
pub mod Allows
pub mod Keeps
use nvme_csd.Base.{ℕ, ◌≡◌, ℤ, List, [], ◌∷◌, ◌++◌, Bool, Option, none, some, length, memcpy}

-- What `fstat` finds, as `S_ISCHR` and `S_ISBLK` tell it.
pub data FileKind : Type 0 where
  char_device block_device other_file : FileKind

-- The arguments of `nvme_admin_passthru` that the code sets; the others are 0. `payload` is what
-- the code has put at the start of the buffer, whose remaining bytes are not initialised.
pub record AdminCommand : Type 0 where
  pub fd : ℤ
  pub cdw10 : ℕ
  pub cdw11 : ℕ
  pub cdw12 : ℕ
  pub cdw13 : ℕ
  pub data_len : ℕ
  pub payload : List ℕ
  pub timeout_ms : ℕ

pub data Call : Type 0 where
  nvme_open : List ℕ → Call
  fstat : ℤ → Call
  close : ℤ → Call
  admin_passthru : AdminCommand → Call
  open_dev_mem : Call
  mmap : ℤ → ℤ → ℕ → Call
  socket : Call
  bind : ℤ → ℕ → Call
  listen : ℤ → Call
  accept : ℤ → Call
  read : ℤ → ℕ → Call
  write : ℤ → List ℕ → Call
  shutdown : ℤ → Call
  stat : List ℕ → Call
  open_file : List ℕ → Call
  pread : ℤ → ℤ → ℕ → Call
  load_word : ℤ → Call

-- The value returned; the buffer after an admin command or a `read`, the size that `stat` found in
-- eight bytes, or the word that was loaded from mapped memory in four; what `fstat` found.
pub record Reply : Type 0 where
  pub ret : ℤ
  pub buffer : List ℕ
  pub kind : FileKind

pub record Event : Type 0 where
  pub call : Call
  pub reply : Reply

-- The environment's state, and the calls so far, the latest first.
pub record Machine (S : Type 0) : Type 0 where
  pub env : S
  pub trace : List Event

-- `none` is undefined behaviour.
abbrev pub M : Type 0 → Type 0 → Type 0
M S A = Machine S → Option (A × Machine S)

abbrev pub pure : {S A : Type 0} → A → M S A
pure a m = some (a, m)

infixl 5 ◌>>=◌ ◌>>◌
abbrev pub ◌>>=◌ : {S A B : Type 0} → M S A → (A → M S B) → M S B
◌>>=◌ f g m = elim (f m) [ none ↦ none | some (a, m') ↦ g a m' ]

abbrev pub ◌>>◌ : {S A B : Type 0} → M S A → M S B → M S B
f >> g = f >>= λ _. g

-- A partial operation on memory.
abbrev pub lift : {S A : Type 0} → Option A → M S A
lift none m = none
lift (some a) m = some (a, m)

-- How the environment answers.
abbrev pub Env : Type 0 → Type 0
Env S = Call → S → Reply × S

-- One call: the environment moves, and the trace grows.
abbrev pub sys : {S : Type 0} → Env S → Call → M S Reply
sys step c m =
    let (r, s) = step c m.env in
    some (r, record { env = s; trace = record { call = c; reply = r } ∷ m.trace })

-- An admin command leaves as many bytes in the buffer as it has room for.
abbrev pub Fills : {S : Type 0} → Env S → Type 0
Fills {S} step =
    (c : AdminCommand) (s : S) → length (step (admin_passthru c) s).0.buffer ≡ c.data_len

-- The machine after one call.
abbrev pub after : {S : Type 0} → Env S → Call → Machine S → Machine S
after step c m =
    let (r, s) = step c m.env in
    record { env = s; trace = record { call = c; reply = r } ∷ m.trace }
