-- ===== src/Relay/Threads/Needs.antt =====
-- How many steps the threads of host/socket_relay/main.c need, where the client and the device have
-- only so much to say.
use nvme_csd.Base.{
  ℕ, zero, suc, ◌+◌, ◌-◌, ◌*◌, ◌≤◌, ◌<◌, ◌≡◌, refl, arith, ℤ, pos, negsuc, is_negative, is_zero,
  to_u32, List, [], ◌∷◌, Option, none, some, Bool, true, false, ◌&&◌, ◌||◌, ◌==◌, leb, ltb, min,
  length, drop, field, memcpy_local, if◌then◌else◌, Bool-cases, ==_iff, inl, inr,
}
use nvme_csd.Cs.Sys.{
  Machine, Env, pure, lift, Call, AdminCommand, admin_passthru, read, write, after,
}
use nvme_csd.Cs.Sys.Allows.{Allows, Allows-bind, Allows-lift, Allows-if}
use nvme_csd.Cs.Types.{is_success}
use nvme_csd.Relay.{tsp_cs_comm, close_relay, write_relay, read_relay}
use nvme_csd.Relay.Threads.{
  Link, ToNvme, to_read, to_write, to_close, to_done, FromNvme, from_read, from_write,
  from_shutdown, from_done, step_to, step_from,
}

-- The client has at most `n` more times bytes to say: `left` tells how often, and a read that brings
-- bytes uses one of them up.
pub record Leaves {S : Type 0} (step : Env S) (left : S → ℕ) (n : ℕ) : Type 0 where
  pub bound : (s : S) → left s ≤ n
  pub uses :
      (fd : ℤ) (count : ℕ) (s : S) (k : ℕ)
      → (step (read fd count) s).0.ret ≡ pos (suc k)
      → left (step (read fd count) s).1 < left s
  pub keeps : (c : Call) (s : S) → left (step c s).1 ≤ left s

-- The device has at most `n` more messages: a read of the relay that brings one with a length that is
-- not 0 uses it up.
pub record Quiets {S : Type 0} (step : Env S) (left : S → ℕ) (n : ℕ) : Type 0 where
  pub bound : (s : S) → left s ≤ n
  pub uses :
      (c : AdminCommand) (s : S)
      → c.cdw10 ≡ tsp_cs_comm
      → c.cdw11 ≡ 0
      → (field 0 4 (step (admin_passthru c) s).0.buffer == 0) ≡ false
      → left (step (admin_passthru c) s).1 < left s
  pub keeps : (c : Call) (s : S) → left (step c s).1 ≤ left s

-- How many turns a thread needs at most, where its side has so much left to say.
abbrev pub need_to : ToNvme → ℕ → ℕ
need_to to_read left = 2 * left + 2
need_to (to_write len bytes) left = 2 * left + 3
need_to to_close left = 1
need_to to_done left = 0

abbrev pub need_from : FromNvme → ℕ → ℕ
need_from from_read left = 2 * left + 2
need_from (from_write bytes) left = 2 * left + 3
need_from from_shutdown left = 1
need_from from_done left = 0

pub need_to_mono : (to : ToNvme) (k l : ℕ) → k ≤ l → need_to to k ≤ need_to to l
need_to_mono to_read k l h = omega arith
need_to_mono (to_write len bytes) k l h = omega arith
need_to_mono to_close k l h = omega arith
need_to_mono to_done k l h = omega arith

pub need_from_mono : (from : FromNvme) (k l : ℕ) → k ≤ l → need_from from k ≤ need_from from l
need_from_mono from_read k l h = omega arith
need_from_mono (from_write bytes) k l h = omega arith
need_from_mono from_shutdown k l h = omega arith
need_from_mono from_done k l h = omega arith

need-read :
    (ret : ℤ) (bytes : List ℕ) (l l' : ℕ)
    → l' ≤ l
    → ((k : ℕ) → ret ≡ pos (suc k) → l' < l)
    → need_to (if is_zero ret || is_negative ret then to_close else to_write ret bytes) l' + 1
      ≤ 2 * l + 2
need-read (pos zero) bytes l l' h used = omega arith
need-read (pos (suc k)) bytes l l' h used = ground (arith, used k refl)
need-read (negsuc k) bytes l l' h used = omega arith

need-status :
    (b : Bool) (l l' : ℕ) → l' ≤ l → need_to (if b then to_read else to_done) l' + 1 ≤ 2 * l + 3
need-status true l l' h = omega arith
need-status false l l' h = omega arith

need-write :
    (b : Bool) (l l' : ℕ)
    → l' ≤ l
    → need_from (if b then from_shutdown else from_read) l' + 1 ≤ 2 * l + 3
need-write true l l' h = omega arith
need-write false l l' h = omega arith

need-got :
    (got : Option (List ℕ)) (l l' : ℕ)
    → l' ≤ l
    → ((b : ℕ) (bytes : List ℕ) → got ≡ some (b ∷ bytes) → l' < l)
    → need_from
          (elim got [
            | none ↦ from_shutdown
            | some [] ↦ from_shutdown
            | some (b ∷ bytes) ↦ from_write (b ∷ bytes)
          ])
          l'
        + 1
      ≤ 2 * l + 2
need-got none l l' h used = omega arith
need-got (some []) l l' h used = omega arith
need-got (some (b ∷ bytes)) l l' h used = omega (arith, used b bytes refl)

abbrev copied : Bool → Option (List ℕ)
copied b = if b then some [] else none

-- A read of no bytes brings none, whatever is tested.
silent :
    {S : Type 0} (accepted fits small copies : Bool) (Q : Option (List ℕ) → Machine S → Type 0)
    (m : Machine S)
    → Q none m
    → Q (some []) m
    → Allows Q (
        (if accepted
            then lift (
                if fits
                then (if small
                    then some none
                    else elim (copied copies) [ none ↦ none | some bytes ↦ some (some bytes) ])
                else none)
            else pure none)
          m)
silent false fits small copies Q m h k = h
silent true false small copies Q m h k = tt
silent true true true copies Q m h k = h
silent true true false false Q m h k = tt
silent true true false true Q m h k = k

module _ {S : Type 0} (step : Env S) (link : Link) where
  -- A call that the code makes leaves no more to say.
  pub write_relay-left :
      (left : S → ℕ) (fd desc : ℤ) (bytes : List ℕ) (len : ℕ) (m : Machine S)
      → ((c : Call) (s : S) → left (step c s).1 ≤ left s)
      → Allows (λ a m'. left m'.env ≤ left m.env) (write_relay step fd desc bytes len m)
  unfolding write_relay
  write_relay-left left fd desc bytes len m keeps =
      Allows-lift _ (if ltb 0 len then memcpy_local 4096 bytes (min len 4096) else none) _ m
        (λ payload. keeps _ m.env)

  pub step_to-need :
      (left : S → ℕ) (n : ℕ) (leaves : Leaves step left n) (to : ToNvme) (m : Machine S)
      → Allows
          (λ to' m'. need_to to' (left m'.env) ≤ need_to to (left m.env) - 1)
          (step_to step link to m)
  unfolding step_to close_relay
  step_to-need left n leaves to_read m =
      let (r, s) = step (read link.connfd 4096) m.env in
      omega (
        arith,
        need-read r.ret r.buffer (left m.env) (left s) (leaves.keeps (read link.connfd 4096) m.env)
            (leaves.uses link.connfd 4096 m.env),
      )
  step_to-need left n leaves (to_write len bytes) m =
      Allows-bind (λ a m'. left m'.env ≤ left m.env) _
        (write_relay step link.devfd link.relay_desc bytes (to_u32 len)) _ m
        (write_relay-left left link.devfd link.relay_desc bytes (to_u32 len) m leaves.keeps)
        (λ status m' h. omega (arith, need-status (is_success status) (left m.env) (left m'.env) h))
  step_to-need left n leaves to_close m = omega arith
  step_to-need left n leaves to_done m = omega arith

  read_relay-left :
      (left : S → ℕ) (n : ℕ) (quiets : Quiets step left n) (fd desc : ℤ) (len : ℕ) (m : Machine S)
      → Allows
          (λ got m'.
            (left m'.env ≤ left m.env)
            × ((b : ℕ) (bytes : List ℕ) → got ≡ some (b ∷ bytes) → left m'.env < left m.env))
          (read_relay step fd desc len m)
  unfolding read_relay
  read_relay-left left n quiets fd desc len m =
      let c : AdminCommand = record {
        fd = fd;
        cdw10 = tsp_cs_comm;
        cdw11 = 0;
        cdw12 = 0;
        cdw13 = to_u32 desc;
        data_len = 4096;
        payload = [];
        timeout_ms = 86400000;
      } in
      let (r, s) = step (admin_passthru c) m.env in
      let kept = quiets.keeps (admin_passthru c) m.env in
      let Q = λ (got : Option (List ℕ)) (m' : Machine S).
        (left m'.env ≤ left m.env)
        × ((b : ℕ) (bytes : List ℕ) → got ≡ some (b ∷ bytes) → left m'.env < left m.env) in
      elim (Bool-cases (field 0 4 r.buffer == 0)) [
        | inl empty ↦
            let none_there : field 0 4 r.buffer ≡ 0 = (==_iff (field 0 4 r.buffer) 0).0 empty in
            rw none_there (
              silent (is_zero r.ret) (leb 0 4092) (ltb len 4092)
                (leb 0 len && leb 0 (length (drop 4 r.buffer))) Q (after step (admin_passthru c) m)
                (kept, λ b bytes e. absurd (cc)) (kept, λ b bytes e. absurd (cc)))
        | inr some_there ↦
            Allows-if Q _ _ _ (after step (admin_passthru c) m)
              (λ got. (kept, λ b bytes e. quiets.uses c m.env refl refl some_there))
      ]

  pub step_from-need :
      (left : S → ℕ) (n : ℕ) (quiets : Quiets step left n) (from : FromNvme) (m : Machine S)
      → Allows
          (λ from' m'. need_from from' (left m'.env) ≤ need_from from (left m.env) - 1)
          (step_from step link from m)
  unfolding step_from
  step_from-need left n quiets from_read m =
      Allows-bind _ _ (read_relay step link.devfd link.relay_desc 4096) _ m
        (read_relay-left left n quiets link.devfd link.relay_desc 4096 m)
        (λ got m' h. omega (arith, need-got got (left m.env) (left m'.env) h.0 h.1))
  step_from-need left n quiets (from_write bytes) m =
      let (r, s) = step (write link.connfd bytes) m.env in
      omega (
        arith,
        need-write (is_zero r.ret || is_negative r.ret) (left m.env) (left s)
            (quiets.keeps (write link.connfd bytes) m.env),
      )
  step_from-need left n quiets from_shutdown m = omega arith
  step_from-need left n quiets from_done m = omega arith
