-- ===== src/Cs/Tsp/Steps.antt =====
-- One step of the admin commands of host/snia_cs_api/cs_api_nvme_tsp.c, as their callers use it.
use nvme_csd.Base.{ℕ, ◌≤◌, ◌≡◌, refl, arith, ℤ, List, some, length, take, blit, memcpy-fits}
use nvme_csd.Cs.Sys.{Machine, Env}
use nvme_csd.Cs.Sys.Trace.{IsQuiet, Ensures, is_open, is_close}
use nvme_csd.Cs.Types.{CsStatus}
use nvme_csd.Cs.Tsp.{copy_out, device_has_cs, passthru}

pub copy_out-fits :
    {S : Type 0} (dst src : List ℕ) (n : ℕ) (status : CsStatus) (m : Machine S)
    → n ≤ length dst
    → n ≤ length src
    → copy_out dst src n status m ≡ some ((status, blit dst 0 (take n src)), m)
unfolding copy_out
copy_out-fits dst src n status m h k = rw (memcpy-fits dst 0 src n (omega arith) k)

-- A copy that fits is done, and no descriptor is opened or closed.
pub copy_out-IsQuiet :
    {S : Type 0} (dst src : List ℕ) (n : ℕ) (status : CsStatus) (m : Machine S)
    → n ≤ length dst
    → n ≤ length src
    → Ensures
        (λ r m'. (r ≡ (status, blit dst 0 (take n src))) × IsQuiet m m')
        (copy_out dst src n status m)
copy_out-IsQuiet dst src n status m h k =
    rw (copy_out-fits dst src n status m h k) (refl, λ g. (refl, refl))

-- Asking a device for its capabilities opens and closes nothing.
pub device_has_cs-IsQuiet :
    {S : Type 0} (step : Env S) (fd : ℤ) (m : Machine S)
    → Ensures (λ has m'. IsQuiet m m') (device_has_cs step fd m)
unfolding device_has_cs passthru is_open is_close
device_has_cs-IsQuiet step fd m = λ g. (refl, refl)
