-- ===== src/Crypt/Aes/Laws.antt =====
-- What one call of firmware/crypt/aes_cbc.c does to contexts, and what it returns.
use nvme_csd.Base.{
  ℕ, ◌+◌, ◌%◌, ◌≡◌, refl, ◌⊎◌, inl, inr, Option-cases, pos, negsuc, List, length, append-nil, arith,
  length-append,
}
use nvme_csd.Crypt.Evp.{Evp, Direction, HasMemory, Computes}
use nvme_csd.Crypt.Aes.{
  Session, AesResult, ctx_new, ctx_free, fail_free, finish, crypt_with, aes_crypt,
}

module _ (e : Evp) (d : Direction e.Ctx) (key iv : List ℕ) where
  live-crypt_with :
      (text : List ℕ) (ctx : e.Ctx) (s : Session e) (n : ℕ)
      → s.live ≡ n + 1
      → (crypt_with e d key iv text ctx s).session.live ≡ n
  unfolding crypt_with finish fail_free ctx_free
  live-crypt_with text ctx s n h = ground arith

  -- On every path, each failure included, the call leaves as many live contexts as it found: the
  -- context that it makes is freed exactly once, and none is freed where none could be made.
  pub live-aes_crypt :
      (text : List ℕ) (s : Session e) → (aes_crypt e d key iv text s).session.live ≡ s.live
  unfolding aes_crypt ctx_new
  live-aes_crypt text s = elim (Option-cases (e.new s.lib).0) [
    | inl failed ↦ ground arith
    | inr (ctx, made) ↦ ground (
      arith,
      live-crypt_with text ctx (record { lib = (e.new s.lib).1; live = s.live + 1 }) s.live refl,
    )
  ]

  -- The value returned counts the bytes written, or is -1.
  abbrev Counts : AesResult e → Type 0
  Counts r = (r.ret ≡ pos (length r.out)) ⊎ (r.ret ≡ negsuc 0)

  finish-Counts : (ctx : e.Ctx) (out : List ℕ) (s : Session e) → Counts (finish e d ctx out s)
  unfolding finish fail_free
  finish-Counts ctx out s = ground (arith, length-append out (d.final ctx).1)

  crypt_with-Counts :
      (text : List ℕ) (ctx : e.Ctx) (s : Session e) → Counts (crypt_with e d key iv text ctx s)
  unfolding crypt_with fail_free
  crypt_with-Counts text ctx s =
      let r = d.update (e.set_padding (d.init ctx key iv).1 0) text in
      ground (arith, finish-Counts r.2 r.1 s)

  -- The value returned is the number of bytes written, or -1.
  pub ret-aes_crypt :
      (text : List ℕ) (s : Session e)
      → let r = aes_crypt e d key iv text s in (r.ret ≡ pos (length r.out)) ⊎ (r.ret ≡ negsuc 0)
  unfolding aes_crypt ctx_new
  ret-aes_crypt text s = elim (Option-cases (e.new s.lib).0) [
    | inl failed ↦ ground arith
    | inr (ctx, made) ↦
        ground
          (arith, crypt_with-Counts text ctx (record { lib = (e.new s.lib).1; live = s.live + 1 }))
  ]

-- With the documented behaviour of the cipher, whole blocks are transformed by it, and the call
-- returns their number of bytes.
module _ (e : Evp) (d : Direction e.Ctx) (key iv : List ℕ) (f : List ℕ → List ℕ) where
  pub aes_crypt-Computes :
      HasMemory e
      → Computes e d key iv f
      → (text : List ℕ) (s : Session e) → length text % 16 ≡ 0
      → let r = aes_crypt e d key iv text s in (r.ret ≡ pos (length (f text))) × (r.out ≡ f text)
  unfolding aes_crypt ctx_new crypt_with finish
  aes_crypt-Computes memory computes text s blocks =
      let (ctx, l, made) = memory s.lib in
      let (c₁, c₂, c₃, init, update, final) = computes ctx text blocks in
      ground (arith, append-nil (f text))
