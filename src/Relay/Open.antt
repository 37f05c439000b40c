-- ===== src/Relay/Open.antt =====
-- What `tsp_nvme_open_relay` of host/socket_relay/main.c sends.
use nvme_csd.Base.{
  c_string, IsText, ℕ, suc, ◌-◌, ◌<◌, ◌≡◌, refl, ap, ◌∙◌, arith, ℤ, negsuc, is_zero, to_int, List,
  [], ◌∷◌, ◌++◌, length, take, drop, replicate, field, some, ne→==, if◌then◌else◌, length-append,
  length-replicate, take-append, drop-append, take_all,
}
use nvme_csd.Cs.Sys.{Machine, Env, AdminCommand, admin_passthru, after}
use nvme_csd.Relay.{strncpy_zeros, addr_info, open_relay, tsp_cs_open_relay}

c_string-append : (text rest : List ℕ) → IsText text → c_string (text ++ (0 ∷ rest)) ≡ text
unfolding c_string
c_string-append [] rest h = refl
c_string-append (b ∷ text) rest h =
    rw (ne→== b 0 h.0) (ap (λ t. b ∷ t) (c_string-append text rest h.1))

length-strncpy_zeros : (n : ℕ) (text : List ℕ) → length text < n → length (strncpy_zeros n text) ≡ n
unfolding strncpy_zeros
length-strncpy_zeros n text h = rw (take_all n text (omega arith)) (
    length-append text (replicate (n - length text) 0)
    ∙ omega (arith, length-replicate {A = ℕ} (n - length text) 0))

c_string-strncpy_zeros :
    (n : ℕ) (text : List ℕ) → length text < n → IsText text → c_string (strncpy_zeros n text) ≡ text
unfolding strncpy_zeros
c_string-strncpy_zeros n text h t =
    let more : n - length text ≡ suc (n - length text - 1) = omega arith in
    rw (take_all n text (omega arith), more)
      (c_string-append text (replicate (n - length text - 1) 0) t)

-- For a node and a service of less than 256 bytes each: one command is sent to the device; both
-- texts read back from their fields in its buffer of 4096 bytes; the descriptor that the device puts
-- at the start of the buffer is returned where it accepts the command, and else -1.
pub open_relay_lem :
    {S : Type 0} (step : Env S) (fd : ℤ) (node service : List ℕ) (m : Machine S)
    → IsText node
    → IsText service
    → length node < 256
    → length service < 256
    → (c : AdminCommand) × (c.fd ≡ fd)
      × (c.cdw10 ≡ tsp_cs_open_relay)
      × (length c.payload ≡ 4096)
      × (c_string (take 256 c.payload) ≡ node)
      × (c_string (take 256 (drop 256 c.payload)) ≡ service)
      × (let r = (step (admin_passthru c) m.env).0 in
          open_relay step fd node service m
          ≡ some (
            (if is_zero r.ret then to_int (field 0 4 r.buffer) else negsuc 0),
            after step (admin_passthru c) m,
          ))
unfolding open_relay addr_info
open_relay_lem step fd node service m tn ts hn hs =
    let a = strncpy_zeros 256 node in
    let b = strncpy_zeros 256 service in
    let z = replicate 3584 0 in
    let c : AdminCommand = record {
      fd = fd;
      cdw10 = 128;
      cdw11 = 0;
      cdw12 = 0;
      cdw13 = 0;
      data_len = 4096;
      payload = a ++ (b ++ z);
      timeout_ms = 0;
    } in
    let la = length-strncpy_zeros 256 node hn in
    let lb = length-strncpy_zeros 256 service hs in
    (
      c,
      refl,
      refl,
      omega (
        arith,
        la,
        lb,
        length-append a (b ++ z),
        length-append b z,
        length-replicate {A = ℕ} 3584 0,
      ),
      ap c_string (take-append 256 a (b ++ z) la) ∙ c_string-strncpy_zeros 256 node hn tn,
      ap (λ x. c_string (take 256 x)) (drop-append 256 a (b ++ z) la)
          ∙ ap c_string (take-append 256 b z lb)
          ∙ c_string-strncpy_zeros 256 service hs ts,
      refl,
    )
