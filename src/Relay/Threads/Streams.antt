-- ===== src/Relay/Threads/Streams.antt =====
-- The bytes that pass through the threads of host/socket_relay/main.c, read off a trace.
use nvme_csd.Base.{
  ℕ, zero, suc, ◌≤◌, ◌<◌, ◌≡◌, refl, sym, ap, ◌∙◌, arith, ℤ, pos, negsuc, is_negative, is_zero,
  List, [], ◌∷◌, ◌++◌, Bool, true, false, ◌&&◌, ◌||◌, length, take, drop, field, ◌==◌,
  if◌then◌else◌, append-nil, append_assoc, ne→==,
}
use nvme_csd.Cs.Sys.{Call, admin_passthru, read, write, Reply, Event}
use nvme_csd.Relay.{tsp_cs_comm}
use nvme_csd.Relay.Threads.{
  ToNvme, to_read, to_write, to_close, to_done, FromNvme, from_write, Threads,
}

-- As many bytes as a call returned, none where it failed.
abbrev pub taken : ℤ → List ℕ → List ℕ
taken (pos n) bytes = take n bytes
taken (negsuc n) bytes = []

-- What a call read from the socket.
unfoldable pub read_bytes : Call → Reply → List ℕ
read_bytes (read fd n) r = taken r.ret r.buffer
read_bytes _ r = []

-- What a command to the relay carried.
unfoldable pub sent_bytes : Call → Reply → List ℕ
sent_bytes (admin_passthru c) r =
    if c.cdw10 == tsp_cs_comm && c.cdw11 == 1 then take c.cdw12 c.payload else []
sent_bytes _ r = []

-- What a command to the relay brought back: a length in four bytes, and the bytes.
unfoldable pub got_bytes : Call → Reply → List ℕ
got_bytes (admin_passthru c) r =
    if (c.cdw10 == tsp_cs_comm && c.cdw11 == 0) && is_zero r.ret
    then take (field 0 4 r.buffer) (drop 4 r.buffer)
    else []
got_bytes _ r = []

-- What was passed to the socket.
unfoldable pub passed_bytes : Call → Reply → List ℕ
passed_bytes (write fd bytes) r = bytes
passed_bytes _ r = []

-- The bytes of all events, in the order in which they happened.
abbrev pub stream : (Call → Reply → List ℕ) → List Event → List ℕ
stream f [] = []
stream f (e ∷ trace) = stream f trace ++ f e.call e.reply

-- What a thread holds and has not passed on.
abbrev pub pending_to : ToNvme → List ℕ
pending_to (to_write len bytes) = taken len bytes
pending_to _ = []

abbrev pub pending_from : FromNvme → List ℕ
pending_from (from_write bytes) = bytes
pending_from _ = []

-- What the thread towards the device holds fits into one command.
abbrev pub IsReady : ToNvme → Type 0
IsReady (to_write (pos n) bytes) = (0 < n) × (n ≤ 4096) × (n ≤ length bytes)
IsReady (to_write (negsuc n) bytes) = ⊥
IsReady _ = Unit

-- In both directions, what was taken in is what was passed on, in its order, and what the thread
-- holds.
pub record InSync (t : Threads) (trace : List Event) : Type 0 where
  pub to : stream read_bytes trace ≡ stream sent_bytes trace ++ pending_to t.to
  pub from : stream got_bytes trace ≡ stream passed_bytes trace ++ pending_from t.from
  pub ready : IsReady t.to

-- One event keeps a direction in order where it hands on what is taken in or was held.
pub advance :
    (taken_in passed held more gone held' : List ℕ)
    → taken_in ≡ passed ++ held
    → held ++ more ≡ gone ++ held'
    → taken_in ++ more ≡ (passed ++ gone) ++ held'
advance taken_in passed held more gone held' h k =
    ap (λ x. x ++ more) h
    ∙ append_assoc passed held more
    ∙ ap (λ x. passed ++ x) k
    ∙ sym (append_assoc passed gone held')

-- An event that has no part in a direction.
pub advance_idle :
    (taken_in passed held : List ℕ)
    → taken_in ≡ passed ++ held
    → taken_in ++ [] ≡ (passed ++ []) ++ held
advance_idle taken_in passed held h = advance taken_in passed held [] [] held h (append-nil held)

-- After a `read` the thread holds what was read.
pub held_read :
    (ret : ℤ) (bytes : List ℕ)
    → ((n : ℕ) → ret ≡ pos n → (n ≤ 4096) × (n ≤ length bytes))
    → let t = if is_zero ret || is_negative ret then to_close else to_write ret bytes in
      (taken ret bytes ≡ pending_to t) × IsReady t
held_read (negsuc n) bytes h = (refl, tt)
held_read (pos zero) bytes h = (refl, tt)
held_read (pos (suc n)) bytes h =
    let (small, inside) = h (suc n) refl in
    rw (ne→== (suc n) 0 (λ e. omega arith)) (refl, (omega arith, small, inside))

-- After a command to the relay the thread holds nothing.
pub held_written :
    (b : Bool) → let t = if b then to_read else to_done in (pending_to t ≡ []) × IsReady t
held_written true = (refl, tt)
held_written false = (refl, tt)
