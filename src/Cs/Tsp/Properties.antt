-- ===== src/Cs/Tsp/Properties.antt =====
-- What `tsp_nvme_get_properties` of host/snia_cs_api/cs_api_nvme_tsp.c writes to its caller.
use nvme_csd.Base.{
  min, ◌+◌, ◌*◌, subst, sym, ℕ, ◌^◌, ◌≤◌, ◌<◌, ◌≡◌, ◌≢◌, refl, arith, ℤ, pos, to_u64, is_zero, not,
  not-false, true, List, [], length, take, drop, blit, length-blit, drop-blit_start, field-blit,
  length-take, ltb, leb,
}
use nvme_csd.Cs.Sys.{after, Machine, Env, AdminCommand, admin_passthru, Fills}
use nvme_csd.Cs.Sys.Trace.{Ensures, Ensures-if}
use nvme_csd.Cs.Types.{
  CsStatus, cs_success, cs_invalid_length, cs_device_not_available, num_cses, sizeof_csx_properties,
  sizeof_cse_properties, cse_offset,
}
use nvme_csd.Cs.Tsp.{required_size, get_properties, passthru, buffer_len, tsp_cs_get, tsp_cs_props}
use nvme_csd.Cs.Tsp.Steps.{copy_out-fits}

pub required_size_bounds :
    (n : ℕ) → (sizeof_csx_properties ≤ required_size n) × (required_size n ≤ buffer_len)
unfolding required_size
required_size_bounds n = ground arith

-- Where the `i`-th CSE of a structure ends.
abbrev pub cse_end : ℕ → ℕ
cse_end i = cse_offset + sizeof_cse_properties * i + sizeof_cse_properties

-- The structure of a device with `n` CSEs is within `len` bytes, as far as 4096 bytes hold it: the
-- part in front of the CSEs with the first one, and each further CSE.
pub record AreWithin (len n : ℕ) : Type 0 where
  pub header : sizeof_csx_properties ≤ len
  pub engines : (i : ℕ) → i < n → min 4096 (cse_end i) ≤ len

AreWithin-required_size : (len n : ℕ) → required_size n ≤ len → AreWithin len n
unfolding required_size
AreWithin-required_size len n h = record {
  header = ground arith;
  engines = λ i below. ground arith;
}

-- The memory has kept its size, and is as it was from `len` on. On success it starts with a
-- structure whose CSEs, as many as it says, are within `len` bytes as far as 4096 bytes hold them.
pub record IsWithin (len : ℕ) (props : List ℕ) (r : CsStatus × List ℕ) : Type 0 where
  pub size : length r.1 ≡ length props
  pub rest : drop len r.1 ≡ drop len props
  pub whole : r.0 ≡ cs_success → AreWithin len (num_cses r.1)

blit-IsWithin :
    (len : ℕ) (props buffer : List ℕ) (n : ℕ) (status : CsStatus)
    → n ≤ len
    → len ≤ length props
    → n ≤ length buffer
    → sizeof_csx_properties ≤ n
    → (status ≡ cs_success → AreWithin len (num_cses buffer))
    → IsWithin len props (status, blit props 0 (take n buffer))
blit-IsWithin len props buffer n status h hp hb large whole =
    let size : length (take n buffer) ≡ n = omega (arith, length-take n buffer) in
    record {
      size = length-blit props 0 (take n buffer) (omega arith);
      rest = drop-blit_start props (take n buffer) len (omega arith) hp;
      whole = λ e.
          let same : num_cses (blit props 0 (take n buffer)) ≡ num_cses buffer =
            field-blit 56 2 n props buffer (omega arith) hb in
          subst (AreWithin len) (sym same) (whole e);
    }

pub untouched :
    (len : ℕ) (props : List ℕ) (status : CsStatus)
    → status ≢ cs_success
    → IsWithin len props (status, props)
untouched len props status failed = record {
  size = refl;
  rest = refl;
  whole = λ e. absurd (failed e);
}

-- The command that asks a device for its properties.
abbrev pub properties_command : ℤ → AdminCommand
properties_command fd = record {
  fd = fd;
  cdw10 = tsp_cs_get;
  cdw11 = tsp_cs_props;
  cdw12 = 0;
  cdw13 = 0;
  data_len = buffer_len;
  payload = [];
  timeout_ms = 0;
}

-- A predicate of results that holds of each outcome of a query of properties: nothing is written and
-- an error returned; or the first structure of what a device answered is written, with the error of a
-- short length; or all of the structure.
pub record HoldsOf {S : Type 0} (step : Env S) (len : ℕ) (props : List ℕ)
    (Q : CsStatus × List ℕ → Type 0) : Type 0 where
  pub refused : (status : CsStatus) → status ≢ cs_success → Q (status, props)
  pub short :
      (fd : ℤ) (s : S)
      → sizeof_csx_properties ≤ len
      → Q (
        cs_invalid_length,
        blit props 0
            (take sizeof_csx_properties (step (admin_passthru (properties_command fd)) s).0.buffer),
      )
  pub whole :
      (fd : ℤ) (s : S)
      → let r = (step (admin_passthru (properties_command fd)) s).0 in
        let buffer = r.buffer in
        is_zero r.ret ≡ true
        → required_size (num_cses buffer) ≤ len
        → Q (cs_success, blit props 0 (take (required_size (num_cses buffer)) buffer))

module _ {S : Type 0} (step : Env S) (fills : Fills step) where
  pub HoldsOf-get_properties :
      (Q : CsStatus × List ℕ → Type 0) (fd : ℤ) (len : ℕ) (props : List ℕ) (m : Machine S)
      → len < 2 ^ 31
      → len ≤ length props
      → HoldsOf step len props Q
      → Ensures (λ r m'. Q r) (get_properties step fd (pos len) props m)
  unfolding get_properties passthru
  HoldsOf-get_properties Q fd len props m small room h =
      let c = properties_command fd in
      let (reply, env) = step (admin_passthru c) m.env in
      let m₁ : Machine S = after step (admin_passthru c) m in
      let required = required_size (num_cses reply.buffer) in
      let filled : length reply.buffer ≡ buffer_len = fills c m.env in
      let bounds = required_size_bounds (num_cses reply.buffer) in
      let P = λ (r : CsStatus × List ℕ) (m' : Machine S). Q r in
      Ensures-if P (not (is_zero reply.ret)) _ _ m₁
        (λ failed. h.refused cs_device_not_available (cc))
        (λ answered.
          Ensures-if P (ltb (to_u64 (pos len)) required) _ _ m₁
            (λ short.
              Ensures-if P (leb sizeof_csx_properties (to_u64 (pos len))) _ _ m₁
                (λ some_room.
                  rw
                    (copy_out-fits props reply.buffer sizeof_csx_properties cs_invalid_length m₁
                      (ground arith) (omega arith))
                    (h.short fd m.env (ground arith)))
                (λ no_room. h.refused cs_invalid_length (cc)))
            (λ fits.
              rw
                (copy_out-fits props reply.buffer required cs_success m₁ (ground arith)
                  (omega arith))
                (h.whole fd m.env (not-false answered) (ground arith))))

  -- The memory stays as `IsWithin` says.
  pub HoldsOf-IsWithin :
      (len : ℕ) (props : List ℕ) → len ≤ length props → HoldsOf step len props (IsWithin len props)
  HoldsOf-IsWithin len props room = record {
    refused = untouched len props;
    short = λ fd s enough.
        let c = properties_command fd in
        blit-IsWithin len props (step (admin_passthru c) s).0.buffer sizeof_csx_properties
          cs_invalid_length enough room (omega (arith, fills c s)) (omega arith) (λ e. absurd (cc));
    whole = λ fd s accepted fits.
        let c = properties_command fd in
        let buffer = (step (admin_passthru c) s).0.buffer in
        let bounds = required_size_bounds (num_cses buffer) in
        blit-IsWithin len props buffer (required_size (num_cses buffer)) cs_success fits room
          (omega (arith, fills c s)) bounds.0
          (λ e. AreWithin-required_size len (num_cses buffer) fits);
  }
