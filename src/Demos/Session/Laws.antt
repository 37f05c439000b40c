-- ===== src/Demos/Session/Laws.antt =====
-- The beginning of the demos of host/demos stays inside its buffers.
use nvme_csd.Base.{
  ℕ, ◌≤◌, ◌≡◌, refl, arith, ℤ, pos, List, Option, none, some, true, length, take, blit, c_string,
  ◌==◌,
}
use nvme_csd.Cs.Sys.{Machine, Env, Fills, admin_passthru}
use nvme_csd.Cs.Sys.Trace.{Ensures-bind, Ensures-if, IsDefined}
use nvme_csd.Cs.Types.{
  CsStatus, cs_success, is_success, is_success_iff, num_cses, num_builtin_functions,
}
use nvme_csd.Cs.Tsp.{required_size}
use nvme_csd.Cs.Tsp.Properties.{HoldsOf, properties_command}
use nvme_csd.Cs.Discovery.{cs_get_csx_from_path, cs_open_csx}
use nvme_csd.Cs.Discovery.Laws.{cs_get_csx_from_path-IsDefined, cs_open_csx-IsDefined}
use nvme_csd.Cs.Query.{cs_query_device_properties, cs_query_device_capabilities}
use nvme_csd.Cs.Query.Capabilities.{cs_query_device_capabilities_lem}
use nvme_csd.Cs.Query.Laws.{HoldsOf-cs_query_device_properties}
use nvme_csd.Cs.Utils.{Line, print_csx_properties}
use nvme_csd.Demos.Session.{
  Locals, Opened, handle_or_zero, query_capabilities, show_device, query_device, open_device,
  open_session,
}

-- The locals have the sizes of their declarations.
pub record AreSized (locals : Locals) : Type 0 where
  pub csx : (memory : List ℕ) → locals.csx ≡ some memory → 4096 ≤ length memory
  pub props : 4096 ≤ length locals.props
  pub caps : 8 ≤ length locals.caps

-- What the device says when it is asked for its properties can be printed from the buffer that it is
-- copied to: it counts no more CSEs than 4096 bytes hold, and its names end.
abbrev pub IsPrintable : {S : Type 0} → Env S → List ℕ → Type 0
IsPrintable {S} step props =
    (fd : ℤ) (s : S)
    → let buffer = (step (admin_passthru (properties_command fd)) s).0.buffer in
      (lines : List Line) × (print_csx_properties
          (blit props 0 (take (required_size (num_cses buffer)) buffer))
        ≡ some lines)

module _ {S : Type 0} (step : Env S) (fills : Fills step) where
  query_capabilities-IsDefined :
      (dev : ℤ) (caps : List ℕ) (lines : List Line) (m : Machine S)
      → 8 ≤ length caps
      → IsDefined (query_capabilities step dev caps lines m)
  unfolding query_capabilities
  query_capabilities-IsDefined dev caps lines m room =
      Ensures-bind _ (λ a m'. Unit {0}) (cs_query_device_capabilities step dev (some caps)) _ m
        (cs_query_device_capabilities_lem step fills dev caps m room) (λ r m' h. tt)

  query_device-IsDefined :
      (dev : ℤ) (locals : Locals) (m : Machine S)
      → AreSized locals
      → IsPrintable step locals.props
      → IsDefined (query_device step dev locals m)
  unfolding query_device show_device
  query_device-IsDefined dev locals m sized printable =
      let Q = λ (a : Opened) (m' : Machine S). Unit {0} in
      Ensures-bind (λ r m'. IsShown r) Q
        (cs_query_device_properties step dev (some (pos 4096)) (some locals.props)) _ m
        (HoldsOf-cs_query_device_properties step fills IsShown dev 4096 locals.props m (omega arith)
          sized.props holds)
        (λ r m' shown.
          Ensures-if Q (is_success r.0) _ _ m'
            (λ ok.
              let (lines, prints) = shown (is_success_iff r.0 ok) in
              rw prints (
                Ensures-if Q (num_builtin_functions r.1 == 0) _ _ m' (λ none_built. tt)
                  (λ some_built. query_capabilities-IsDefined dev locals.caps lines m' sized.caps)))
            (λ failed. tt))
    where
      IsShown : CsStatus × List ℕ → Type 0
      IsShown r = r.0 ≡ cs_success → (lines : List Line) × (print_csx_properties r.1 ≡ some lines)

      holds : HoldsOf step 4096 locals.props IsShown
      holds = record {
        refused = λ status failed e. absurd (failed e);
        short = λ fd s enough e. absurd (cc);
        whole = λ fd s accepted fits e. printable fd s;
      }

  open_device-IsDefined :
      (name : List ℕ) (locals : Locals) (m : Machine S)
      → AreSized locals
      → IsPrintable step locals.props
      → IsDefined (open_device step name locals m)
  unfolding open_device
  open_device-IsDefined name locals m sized printable =
      let Q = λ (a : Opened) (m' : Machine S). Unit {0} in
      Ensures-bind (λ a m'. Unit {0}) Q (cs_open_csx step (some (c_string name)) true) _ m
        (cs_open_csx-IsDefined step (c_string name) m)
        (λ r m' h.
          Ensures-if Q (is_success r.0) _ _ m'
            (λ ok. query_device-IsDefined (handle_or_zero r.1) locals m' sized printable)
            (λ failed. tt))

  cs_get_csx-IsDefined :
      (basename : List ℕ → List ℕ) (path : List ℕ) (csx : Option (List ℕ)) (m : Machine S)
      → ((memory : List ℕ) → csx ≡ some memory → 4096 ≤ length memory)
      → IsDefined (cs_get_csx_from_path step basename (some path) (some 4096) csx m)
  unfolding cs_get_csx_from_path
  cs_get_csx-IsDefined basename path none m sized = tt
  cs_get_csx-IsDefined basename path (some memory) m sized =
      cs_get_csx_from_path-IsDefined step basename (some path) 4096 memory m (sized memory refl)

  -- For every device that fills 4096 bytes and says of itself what can be printed from them, and every
  -- system, with locals of the sizes of their declarations: finding, opening and querying the device is
  -- defined, whatever fails.
  pub open_session-IsDefined :
      (basename : List ℕ → List ℕ) (path : List ℕ) (locals : Locals) (m : Machine S)
      → AreSized locals
      → IsPrintable step locals.props
      → IsDefined (open_session step basename path locals m)
  unfolding open_session
  open_session-IsDefined basename path locals m sized printable =
      let Q = λ (a : Opened) (m' : Machine S). Unit {0} in
      Ensures-bind (λ a m'. Unit {0}) Q
        (cs_get_csx_from_path step basename (some path) (some 4096) locals.csx) _ m
        (cs_get_csx-IsDefined basename path locals.csx m sized.csx)
        (λ r m' h.
          Ensures-if Q (is_success r.0) _ _ m'
            (λ ok. open_device-IsDefined r.1 locals m' sized printable) (λ failed. tt))
