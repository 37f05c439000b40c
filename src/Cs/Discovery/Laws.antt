-- ===== src/Cs/Discovery/Laws.antt =====
-- What the discovery of host/snia_cs_api/cs_api_nvme_tsp.c leaves behind, on every path.
use nvme_csd.Base.{
  ℕ, ◌+◌, ◌≤◌, ◌≡◌, ◌≢◌, ◌⊎◌, inl, inr, refl, ap, arith, ℤ, is_negative, eqb_ℤ, List, [], ◌∷◌, ◌++◌,
  some, none, Option, true, false, ◌||◌, length, take, blit, take_all, length-append, ltb,
  if◌then◌else◌,
}
use nvme_csd.Cs.Sys.{Machine, Env, nvme_open, fstat, ◌>>=◌}
use nvme_csd.Cs.Sys.Trace.{
  count_if, is_open, is_close, IsBalanced, ClosesOnce, Ensures, Ensures-bind, Ensures-if,
  Ensures-map, IsQuiet, IsDefined,
}
use nvme_csd.Cs.Types.{CsStatus, cs_success, cs_invalid_length, cs_enxio, cs_entity_not_on_device}
use nvme_csd.Cs.Tsp.{device_has_cs}
use nvme_csd.Cs.Tsp.Steps.{copy_out-fits, device_has_cs-IsQuiet}
use nvme_csd.Cs.Discovery.{
  close_with, copy_name, check_device, cs_get_csx_from_path, cs_open_csx, is_no_device,
}

-- Either the call succeeded and the name stands at the start of the memory at `DevName`, with
-- its NUL, or it failed and the memory is as it was.
abbrev pub IsNamed : List ℕ → List ℕ → CsStatus × List ℕ → Type 0
IsNamed name dev_name (status, memory) =
    ((status ≡ cs_success) × (memory ≡ blit dev_name 0 (name ++ (0 ∷ []))))
    ⊎ ((status ≢ cs_success) × (memory ≡ dev_name))

module _ {S : Type 0} (step : Env S) where
  -- The result is as `IsNamed` says, and `fd` has been closed.
  abbrev IsDone : ℤ → List ℕ → List ℕ → Machine S → CsStatus × List ℕ → Machine S → Type 0
  IsDone fd name dev_name m r m' = IsNamed name dev_name r × ClosesOnce fd m m'

  close_with_failed :
      (fd : ℤ) (name dev_name : List ℕ) (status : CsStatus) (m m' : Machine S)
      → status ≢ cs_success
      → IsQuiet m m'
      → Ensures (IsDone fd name dev_name m) (close_with step fd (status, dev_name) m')
  unfolding close_with is_open is_close
  close_with_failed fd name dev_name status m m' failed quiet =
      (inr (failed, refl), λ g. ((quiet g).0, ap (count_if (eqb_ℤ fd g)) (quiet g).1))

  close_with_named :
      (fd : ℤ) (name dev_name : List ℕ) (m m' : Machine S)
      → IsQuiet m m'
      → (text : List ℕ) → text ≡ name ++ (0 ∷ [])
      → Ensures
          (IsDone fd name dev_name m)
          (close_with step fd (cs_success, blit dev_name 0 text) m')
  unfolding close_with is_open is_close
  close_with_named fd name dev_name m m' quiet text e = (
    inl (refl, ap (blit dev_name 0) e),
    λ g. ((quiet g).0, ap (count_if (eqb_ℤ fd g)) (quiet g).1),
  )

  copy_name_once :
      (fd : ℤ) (name : List ℕ) (len : ℕ) (dev_name : List ℕ) (m m' : Machine S)
      → len ≤ length dev_name
      → IsQuiet m m'
      → Ensures (IsDone fd name dev_name m) (copy_name step fd name len dev_name m')
  unfolding copy_name
  copy_name_once fd name len dev_name m m' room quiet =
      let text = name ++ (0 ∷ []) in
      let size = length-append name (0 ∷ []) in
      Ensures-if (IsDone fd name dev_name m) (ltb len (length name + 1)) _ _ m'
        (λ short. close_with_failed fd name dev_name cs_invalid_length m m' (cc) quiet)
        (λ fits.
          rw
            (
              copy_out-fits dev_name text (length name + 1) cs_success m' (ground arith)
                  (omega arith),
              ◌>>=◌,
            )
            (close_with_named fd name dev_name m m' quiet (take (length name + 1) text)
              (take_all (length name + 1) text (omega arith))))

  check_device_once :
      (fd : ℤ) (name : List ℕ) (len : ℕ) (dev_name : List ℕ) (m : Machine S)
      → len ≤ length dev_name
      → Ensures (IsDone fd name dev_name m) (check_device step fd name len dev_name m)
  unfolding check_device is_open is_close
  check_device_once fd name len dev_name m room =
      let st = step (fstat fd) m.env in
      let m₁ : Machine S = record {
        env = st.1;
        trace = record { call = fstat fd; reply = st.0 } ∷ m.trace;
      } in
      Ensures-if (IsDone fd name dev_name m) (is_negative st.0.ret || is_no_device st.0.kind) _ _ m₁
        (λ no_device. close_with_failed fd name dev_name cs_enxio m m₁ (cc) (λ g. (refl, refl)))
        (λ found.
          Ensures-bind (λ has m'. IsQuiet m₁ m') (IsDone fd name dev_name m) (device_has_cs step fd)
            (λ has.
              if has
              then copy_name step fd name len dev_name
              else close_with step fd (cs_entity_not_on_device, dev_name))
            m₁ (device_has_cs-IsQuiet step fd m₁)
            (λ has m₂ quiet.
              Ensures-if (IsDone fd name dev_name m) has _ _ m₂
                (λ compute. copy_name_once fd name len dev_name m m₂ room (λ g. quiet g))
                (λ plain.
                  close_with_failed fd name dev_name cs_entity_not_on_device m m₂ (cc)
                    (λ g. quiet g))))

  IsBalanced-once :
      (name : List ℕ) (m : Machine S)
      → let r = (step (nvme_open name) m.env).0 in
        let m₁ : Machine S = record {
          env = (step (nvme_open name) m.env).1;
          trace = record { call = nvme_open name; reply = r } ∷ m.trace;
        } in
        is_negative r.ret ≡ false → (m' : Machine S) → ClosesOnce r.ret m₁ m' → IsBalanced m m'
  unfolding is_open is_close
  IsBalanced-once name m opened m' once g = ground (arith, once g)

  -- For every device and file system, with memory at `DevName` of at least `*Length` bytes: the call
  -- never writes outside it, closes each descriptor that it opened exactly once, on success leaves
  -- the name with its NUL at the start of the memory, and on failure leaves the memory alone.
  pub cs_get_csx_from_path_lem :
      (basename : List ℕ → List ℕ) (path : List ℕ) (len : ℕ) (dev_name : List ℕ) (m : Machine S)
      → len ≤ length dev_name
      → Ensures
          (λ r m'. IsNamed (basename path) dev_name r × IsBalanced m m')
          (cs_get_csx_from_path step basename (some path) (some len) (some dev_name) m)
  unfolding cs_get_csx_from_path
  cs_get_csx_from_path_lem basename path len dev_name m room =
      let name = basename path in
      let opened = step (nvme_open name) m.env in
      let m₁ : Machine S = record {
        env = opened.1;
        trace = record { call = nvme_open name; reply = opened.0 } ∷ m.trace;
      } in
      let Q =
        λ (r : CsStatus × List ℕ) (m' : Machine S). IsNamed name dev_name r × IsBalanced m m' in
      Ensures-if Q (is_negative opened.0.ret) _ _ m₁
        (λ failed. (inr (cc, refl), unfold is_open is_close in λ g. ground arith))
        (λ done.
          Ensures-map (IsDone opened.0.ret name dev_name m₁) Q _
            (check_device_once opened.0.ret name len dev_name m₁ room)
            (λ r m' h. (h.0, IsBalanced-once name m done m' h.1)))

  pub cs_open_csx-IsDefined :
      (name : List ℕ) (m : Machine S) → IsDefined (cs_open_csx step (some name) true m)
  unfolding cs_open_csx
  cs_open_csx-IsDefined name m =
      Ensures-if (λ a m'. Unit {0}) (is_negative (step (nvme_open name) m.env).0.ret) _ _ _
        (λ h. tt) (λ h. tt)

  -- Discovery is defined with memory for the name.
  pub cs_get_csx_from_path-IsDefined :
      (basename : List ℕ → List ℕ) (path : Option (List ℕ)) (len : ℕ) (dev_name : List ℕ)
      (m : Machine S)
      → len ≤ length dev_name
      → IsDefined (cs_get_csx_from_path step basename path (some len) (some dev_name) m)
  unfolding cs_get_csx_from_path
  cs_get_csx_from_path-IsDefined basename none len dev_name m room = tt
  cs_get_csx_from_path-IsDefined basename (some path) len dev_name m room =
      Ensures-map _ (λ a m'. Unit {0}) _
        (cs_get_csx_from_path_lem basename path len dev_name m room) (λ r m' h. tt)
