-- ===== src/Demos/Checksum/Runs.antt =====
-- The requests that host/demos/checksum/checksum.c makes, one per iteration, and the result.
use nvme_csd.Base.{
  ℕ, zero, suc, ◌+◌, ◌-◌, ◌*◌, ◌≤◌, ◌≡◌, refl, ap, sym, ◌∙◌, arith, ℤ, pos, is_zero, to_u32,
  to_u32_bound, to_int, to_int_small, List, [], ◌∷◌, ◌++◌, some, true, length, field, replicate,
  append_assoc, length-append, le_value-le_bytes_four,
}
use nvme_csd.Cs.Sys.{Machine, Env, AdminCommand, admin_passthru, load_word, Reply, Event, after}
use nvme_csd.Cs.Sys.Trace.{Ensures, Ensures-bind, Ensures-if, Ensures-map, Ensures-known}
use nvme_csd.Cs.Tsp.Size.{compute_command}
use nvme_csd.Cs.Compute.{cs_queue_compute_request}
use nvme_csd.Cs.Compute.Laws.{cs_queue_compute_request_lem}
use nvme_csd.Cs.Types.Request.{request_bytes}
use nvme_csd.Demos.Request.Wire.{checksum_call, checksum_request_lem}
use nvme_csd.Demos.Checksum.{Outcome, exited, printed, Region, run_requests, compute_checksum}

-- Every event submits the command.
abbrev pub Submits : AdminCommand → List Event → Type 0
Submits c [] = Unit
Submits c (e ∷ events) = (e.call ≡ admin_passthru c) × Submits c events

Submits-append :
    (c : AdminCommand) (later earlier : List Event)
    → Submits c later
    → Submits c earlier
    → Submits c (later ++ earlier)
Submits-append c [] earlier h k = k
Submits-append c (e ∷ later) earlier h k = (h.0, Submits-append c later earlier h.1 k)

-- What the last of the events returned, if there is one.
abbrev pub last_ret : ℤ → List Event → ℤ
last_ret status [] = status
last_ret status (e ∷ events) = e.reply.ret

last_ret-append :
    (status : ℤ) (later : List Event) (e : Event)
    → last_ret status (later ++ (e ∷ [])) ≡ last_ret e.reply.ret later
last_ret-append status [] e = refl
last_ret-append status (l ∷ later) e = refl

-- From `m` to `m'` the command was submitted `n` times, and `status` is the last that was returned.
pub record Ran {S : Type 0} (c : AdminCommand) (n : ℕ) (before : ℤ) (m : Machine S) (status : ℤ)
    (m' : Machine S) : Type 0 where
  pub runs : List Event
  pub trace : m'.trace ≡ runs ++ m.trace
  pub count : length runs ≡ n
  pub submits : Submits c runs
  pub last : status ≡ last_ret before runs

module _ {S : Type 0} (step : Env S) (req : List ℕ) (k : ℕ) where
  run_requests-Ran :
      to_int (field 8 4 req) ≡ pos k
      → k ≤ 204
      → 32 + 20 * (k - 1) ≤ length req
      → (n : ℕ) (status : ℤ) (m : Machine S)
      → Ensures
          (Ran (compute_command (to_int (field 0 4 req)) req (32 + 20 * (k - 1))) n status m)
          (run_requests step n req status m)
  unfolding run_requests
  run_requests-Ran args small inside zero status m = record {
    runs = [];
    trace = refl;
    count = refl;
    submits = tt;
    last = refl;
  }
  run_requests-Ran args small inside (suc n) status m =
      let c = compute_command (to_int (field 0 4 req)) req (32 + 20 * (k - 1)) in
      let m₁ = after step (admin_passthru c) m in
      let r = (step (admin_passthru c) m.env).0 in
      let e : Event = record { call = admin_passthru c; reply = r } in
      Ensures-known (Ran c (suc n) status m) (cs_queue_compute_request step (some req)) _ m r.ret m₁
        (cs_queue_compute_request_lem step req k m args small inside)
        (Ensures-map (Ran c n r.ret m₁) (Ran c (suc n) status m) _
          (run_requests-Ran args small inside n r.ret m₁)
          (λ status' m' h. record {
            runs = h.runs ++ (e ∷ []);
            trace = h.trace ∙ sym (append_assoc h.runs (e ∷ []) m.trace);
            count = omega (arith, length-append h.runs (e ∷ []), h.count);
            submits = Submits-append c h.runs (e ∷ []) h.submits (refl, tt);
            last = h.last ∙ sym (last_ret-append status h.runs e);
          }))

-- The checksum is the word that was loaded last. Before it the requests were made, `n` of them and all
-- alike: three arguments, which are the memory of the file, the low 32 bits of its size and the memory
-- of the result. The last of them, if there is one, was accepted.
pub record IsComputed {S : Type 0} (dev : ℤ) (function size : ℕ) (text result : Region) (n : ℕ)
    (m : Machine S) (sum : ℕ) (m' : Machine S) : Type 0 where
  pub word : Reply
  pub command : AdminCommand
  pub runs : List Event
  pub trace :
      m'.trace ≡ record { call = load_word result.address; reply = word } ∷ (runs ++ m.trace)
  pub count : length runs ≡ n
  pub submits : Submits command runs
  pub accepted : is_zero (last_ret (pos 0) runs) ≡ true
  pub device : command.fd ≡ to_int (to_u32 dev)
  pub payload :
      command.payload ≡ request_bytes (checksum_call dev function size text.handle result.handle) []
  pub shown : sum ≡ field 0 4 word.buffer

-- An outcome that prints a checksum is as `P` says, and the other ones have status 1.
abbrev pub Prints : {S : Type 0} → (ℕ → Machine S → Type 0) → Outcome → Machine S → Type 0
Prints P (exited status) m = status ≡ pos 1
Prints P (printed sum) m = P sum m

module _ {S : Type 0} (step : Env S) where
  pub compute_checksum-Prints :
      (dev : ℤ) (function size : ℕ) (text result : Region) (n : ℕ) (m : Machine S)
      → Ensures
          (Prints (IsComputed dev function size text result n m))
          (compute_checksum step dev function size text result n m)
  unfolding compute_checksum
  compute_checksum-Prints dev function size text result n m =
      let req =
        request_bytes (checksum_call dev function size text.handle result.handle)
          (replicate 20 0) in
      let c = compute_command (to_int (field 0 4 req)) req 72 in
      let Q = Prints (IsComputed dev function size text result n m) in
      rw (checksum_request_lem dev function size text.handle result.handle) (
        Ensures-bind (Ran c n (pos 0) m) Q (run_requests step n req (pos 0)) _ m
          (run_requests-Ran step req 3 (to_int_small 3 (omega arith)) (omega arith) (omega arith) n
            (pos 0) m)
          (λ status m' h.
            Ensures-if Q (is_zero status) _ _ m'
              (λ ok. record {
                word = (step (load_word result.address) m'.env).0;
                command = c;
                runs = h.runs;
                trace =
                    ap
                      (λ t.
                        record {
                          call = load_word result.address;
                          reply = (step (load_word result.address) m'.env).0;
                        }
                        ∷ t)
                      h.trace;
                count = h.count;
                submits = h.submits;
                accepted = ap is_zero (sym h.last) ∙ ok;
                device = ap to_int (le_value-le_bytes_four (to_u32 dev) (to_u32_bound dev));
                payload = refl;
                shown = refl;
              })
              (λ failed. refl)))
