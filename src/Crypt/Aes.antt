-- ===== src/Crypt/Aes.antt =====
-- firmware/crypt/aes_cbc.c: one call of the EVP interface from context to result.
pub mod Laws
use nvme_csd.Base.{
  ℕ, ◌+◌, ◌-◌, ℤ, pos, negsuc, eqb_ℤ, List, [], ◌++◌, Option, none, some, length, if◌then◌else◌,
}
use nvme_csd.Crypt.Evp.{Evp, Direction}

module _ (e : Evp) where
  -- The library's state, with the number of contexts made and not yet freed.
  pub record Session : Type 0 where
    pub lib : e.Lib
    pub live : ℕ

  -- The result of `aes_encrypt` or `aes_decrypt`: the value returned, the bytes written from the
  -- output pointer on, and the state after the call.
  pub record AesResult : Type 0 where
    pub ret : ℤ
    pub out : List ℕ
    pub session : Session

  -- `EVP_CIPHER_CTX_new`
  ctx_new : Session → Option e.Ctx × Session
  ctx_new s =
      let (c, l) = e.new s.lib in
      elim c [
        | none ↦ (none, record s { lib = l })
        | some ctx ↦ (some ctx, record { lib = l; live = s.live + 1 })
      ]

  -- `EVP_CIPHER_CTX_free`
  ctx_free : e.Ctx → Session → Session
  ctx_free ctx s = record { lib = e.free ctx s.lib; live = s.live - 1 }

  -- The label `free`: the context is released and the call returns -1. `out` has been written.
  fail_free : e.Ctx → List ℕ → Session → AesResult
  fail_free ctx out s = record { ret = negsuc 0; out = out; session = ctx_free ctx s }

  -- From `EVP_..Final_ex` on: the lengths of both writes add up.
  finish : Direction e.Ctx → e.Ctx → List ℕ → Session → AesResult
  finish d ctx out s =
      let (r, more, ctx') = d.final ctx in
      if eqb_ℤ r (pos 1)
      then record {
        ret = pos (length out + length more);
        out = out ++ more;
        session = ctx_free ctx' s;
      }
      else fail_free ctx' (out ++ more) s

  -- From `EVP_..Init_ex` on, with padding turned off before the text is given.
  crypt_with : Direction e.Ctx → List ℕ → List ℕ → List ℕ → e.Ctx → Session → AesResult
  crypt_with d key iv text ctx s =
      let (r, ctx₁) = d.init ctx key iv in
      if eqb_ℤ r (pos 1)
      then (let (r', out, ctx₂) = d.update (e.set_padding ctx₁ 0) text in
          if eqb_ℤ r' (pos 1) then finish d ctx₂ out s else fail_free ctx₂ out s)
      else fail_free ctx₁ [] s

  -- The body that both functions of the file have, in one direction.
  pub aes_crypt : Direction e.Ctx → List ℕ → List ℕ → List ℕ → Session → AesResult
  aes_crypt d key iv text s =
      let (c, s') = ctx_new s in
      elim c [
        | none ↦ record { ret = negsuc 0; out = []; session = s' }
        | some ctx ↦ crypt_with d key iv text ctx s'
      ]

  unfoldable pub aes_encrypt : List ℕ → List ℕ → List ℕ → Session → AesResult
  aes_encrypt = aes_crypt e.encrypt

  unfoldable pub aes_decrypt : List ℕ → List ℕ → List ℕ → Session → AesResult
  aes_decrypt = aes_crypt e.decrypt
