-- ===== src/Crypt/Lba.antt =====
-- `lba_encrypt` and `lba_decrypt` of firmware/crypt/main.c: a transfer, one block of 512 bytes
-- after the other.
pub mod Laws
use nvme_csd.Base.{
  ℕ, zero, suc, ◌+◌, ◌/◌, ℤ, pos, negsuc, is_negative, eqb_ℤ, low_nine_bits, List, Option, none,
  some, Bool, not, ◌&&◌, ◌||◌, length, take, drop, blit, ltb, leb, ◌==◌, if◌then◌else◌,
}
use nvme_csd.Crypt.Evp.{Evp}
use nvme_csd.Crypt.Aes.{Session, AesResult, aes_encrypt, aes_decrypt}

-- `PCI_EPF_NVME_LBADS`
abbrev pub lbads : ℕ
lbads = 512

module _ (e : Evp) where
  -- The value returned, the output from its pointer on, and the state after the call.
  pub record LbaResult : Type 0 where
    pub ret : ℤ
    pub out : List ℕ
    pub session : Session e

  module _ (crypt : List ℕ → Session e → AesResult e) where
    -- The loop over `sz`. `none` is undefined behaviour (a block outside the input, or more output
    -- than there is room for), or fuel that has run out.
    pub lba_loop : ℕ → ℕ → ℕ → List ℕ → List ℕ → Session e → Option LbaResult
    lba_loop zero sz len input out s = none
    lba_loop (suc fuel) sz len input out s =
        let a = crypt (take lbads (drop sz input)) s in
        let out' = blit out sz a.out in
        let rest = lba_loop fuel (sz + lbads) len input out' a.session in
        if ltb sz len
        then (if leb (sz + lbads) (length input) && leb (sz + length a.out) (length out)
            then (if is_negative a.ret || not (eqb_ℤ a.ret (pos lbads))
                then some (record { ret = negsuc 0; out = out'; session = a.session })
                else rest)
            else none)
        else some (record { ret = pos len; out = out; session = s })

    -- The test of the length, and the loop. A negative length that passes the test runs no round.
    pub lba_crypt : ℤ → List ℕ → List ℕ → Session e → Option LbaResult
    lba_crypt len input out s =
        if low_nine_bits len == 0
        then elim len [
          | pos n ↦ lba_loop (suc (n / lbads)) 0 n input out s
          | negsuc n ↦ some (record { ret = negsuc n; out = out; session = s })
        ]
        else some (record { ret = negsuc 0; out = out; session = s })

  unfoldable pub lba_encrypt : List ℕ → List ℕ → ℤ → List ℕ → List ℕ → Session e → Option LbaResult
  lba_encrypt key iv = lba_crypt (aes_encrypt e key iv)

  unfoldable pub lba_decrypt : List ℕ → List ℕ → ℤ → List ℕ → List ℕ → Session e → Option LbaResult
  lba_decrypt key iv = lba_crypt (aes_decrypt e key iv)
