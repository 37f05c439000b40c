-- ===== src/Demos/Session.antt =====
-- What the demos begin with: the device is found, opened and asked for its properties and its
-- capabilities (host/demos/checksum/checksum.c and host/demos/sleep/sleep.c).
pub mod Laws
pub mod Overflow
use nvme_csd.Base.{
  ℕ, ℤ, pos, negsuc, List, Option, none, some, Bool, true, false, not, field, c_string, ◌==◌,
  if◌then◌else◌,
}
use nvme_csd.Cs.Sys.{M, pure, ◌>>=◌, lift, Env}
use nvme_csd.Cs.Types.{CsStatus, is_success, num_builtin_functions}
use nvme_csd.Cs.Discovery.{cs_get_csx_from_path, cs_open_csx}
use nvme_csd.Cs.Query.{cs_query_device_properties, cs_query_device_capabilities}
use nvme_csd.Cs.Utils.{Line, print_csx_properties}

-- `CSX_BUFFER_SIZE`
abbrev pub csx_buffer_size : ℕ
csx_buffer_size = 4096

-- The memory of the locals: `csxBuffer` as `malloc` gives it, which is not tested, `prop_buffer` and
-- `caps`.
pub record Locals : Type 0 where
  pub csx : Option (List ℕ)
  pub props : List ℕ
  pub caps : List ℕ

-- `ERROR_QUIT` is the exit with status 1; otherwise the device, the capabilities, and what was
-- printed.
pub data Opened : Type 0 where
  quit : Opened
  opened : ℤ → ℕ → List Line → Opened

-- `dev`, which is 0 until it is written.
abbrev pub handle_or_zero : Option ℤ → ℤ
handle_or_zero none = pos 0
handle_or_zero (some dev) = dev

module _ {S : Type 0} (step : Env S) where
  -- From the second query on.
  pub query_capabilities : ℤ → List ℕ → List Line → M S Opened
  query_capabilities dev caps lines = do
    (status, word) ← cs_query_device_capabilities step dev (some caps)
    pure (if is_success status then opened dev (field 0 8 word) lines else quit)

  -- From the first query's status on.
  pub show_device : ℤ → Locals → CsStatus × List ℕ → M S Opened
  show_device dev locals (status, props) =
      if is_success status
      then (do
        lines ← lift (print_csx_properties props)
        if num_builtin_functions props == 0
            then pure quit
            else query_capabilities dev locals.caps lines)
      else pure quit

  -- From the first query on.
  pub query_device : ℤ → Locals → M S Opened
  query_device dev locals = do
    told ← cs_query_device_properties step dev (some (pos csx_buffer_size)) (some locals.props)
    show_device dev locals told

  -- From `csOpenCSx` on.
  unfoldable pub open_device : List ℕ → Locals → M S Opened
  open_device name locals = do
    (status, dev) ← cs_open_csx step (some (c_string name)) true
    if is_success status then query_device (handle_or_zero dev) locals else pure quit

  pub open_session : (List ℕ → List ℕ) → List ℕ → Locals → M S Opened
  open_session basename path locals = do
    (status, name) ←
        cs_get_csx_from_path step basename (some path) (some csx_buffer_size) locals.csx
    if is_success status then open_device name locals else pure quit
