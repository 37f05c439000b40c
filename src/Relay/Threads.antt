-- ===== src/Relay/Threads.antt =====
-- The two threads of host/socket_relay/main.c, `relay_to_nvme_thread_fn` and
-- `relay_from_nvme_thread_fn`: each call that they make is a step, and a run takes the steps of
-- both in any order.
pub mod Streams
pub mod Calls
pub mod Runs
pub mod Ends
pub mod Needs
pub mod Spares
pub mod Joins
pub mod Sides
pub mod Settles
use nvme_csd.Base.{
  ℕ, ℤ, pos, is_negative, is_zero, to_u64, to_u32, List, [], ◌∷◌, Option, none, some, length, take,
  ◌||◌, if◌then◌else◌,
}
use nvme_csd.Cs.Sys.{M, pure, ◌>>=◌, ◌>>◌, Env, sys, read, write, shutdown}
use nvme_csd.Cs.Types.{is_success}
use nvme_csd.Relay.{size_4k, close_relay, write_relay, read_relay}

-- `thread_arg_st`
pub record Link : Type 0 where
  pub connfd : ℤ
  pub devfd : ℤ
  pub relay_desc : ℤ

-- Where the thread towards the device stands: before `read`; before `tsp_nvme_write_relay`, with
-- what `read` returned and the buffer; before `tsp_nvme_close_relay`; at its end.
pub data ToNvme : Type 0 where
  to_read : ToNvme
  to_write : ℤ → List ℕ → ToNvme
  to_close : ToNvme
  to_done : ToNvme

-- Where the other thread stands: before `tsp_nvme_read_relay`; before `write`, with the bytes;
-- before `shutdown`; at its end.
pub data FromNvme : Type 0 where
  from_read : FromNvme
  from_write : List ℕ → FromNvme
  from_shutdown : FromNvme
  from_done : FromNvme

pub record Threads : Type 0 where
  pub to : ToNvme
  pub from : FromNvme

-- Which thread goes on.
pub data Turn : Type 0 where
  turn_to turn_from : Turn

module _ {S : Type 0} (step : Env S) (link : Link) where
  pub step_to : ToNvme → M S ToNvme
  step_to to_read = do
    r ← sys step (read link.connfd size_4k)
    pure (if is_zero r.ret || is_negative r.ret then to_close else to_write r.ret r.buffer)
  step_to (to_write len buffer) = do
    status ← write_relay step link.devfd link.relay_desc buffer (to_u32 len)
    pure (if is_success status then to_read else to_done)
  step_to to_close = do _ ← close_relay step link.devfd link.relay_desc; pure to_done
  step_to to_done = pure to_done

  pub step_from : FromNvme → M S FromNvme
  step_from from_read = do
    got ← read_relay step link.devfd link.relay_desc size_4k
    pure (elim got [
      | none ↦ from_shutdown
      | some [] ↦ from_shutdown
      | some (b ∷ bytes) ↦ from_write (b ∷ bytes)
    ])
  step_from (from_write bytes) = do
    r ← sys step (write link.connfd bytes)
    pure (if is_zero r.ret || is_negative r.ret then from_shutdown else from_read)
  step_from from_shutdown = do _ ← sys step (shutdown link.connfd); pure from_done
  step_from from_done = pure from_done

  pub step_threads : Turn → Threads → M S Threads
  step_threads turn_to t = do to ← step_to t.to; pure (record t { to = to })
  step_threads turn_from t = do from ← step_from t.from; pure (record t { from = from })

  -- `communicate`, as far as the turns go.
  pub communicate : List Turn → Threads → M S Threads
  communicate [] t = pure t
  communicate (turn ∷ turns) t = do t' ← step_threads turn t; communicate turns t'

-- Both threads as `pthread_create` starts them; its results are not looked at, and it is taken to
-- succeed.
abbrev pub launched : Threads
launched = record { to = to_read; from = from_read }
