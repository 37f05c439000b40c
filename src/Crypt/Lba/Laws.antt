-- ===== src/Crypt/Lba/Laws.antt =====
-- What the block loop of firmware/crypt/main.c computes, and how it ends.
use nvme_csd.Base.{
  ℕ, zero, suc, ◌+◌, ◌*◌, ◌/◌, ◌≤◌, ◌<◌, ◌≡◌, ◌≢◌, refl, ◌∙◌, ap, ap₂, sym, ℤ, pos, negsuc,
  low_nine_bits, List, [], ◌++◌, some, length, take, drop, blit, arith, append-nil, append_assoc,
  length-append, length-take, length-drop, length-blit, take-blit_end, drop-drop, take-append,
  drop-append, take_add, take-append_le, drop-append_le,
}
use nvme_csd.Crypt.Evp.{Evp}
use nvme_csd.Crypt.Aes.{Session, AesResult}
use nvme_csd.Crypt.Lba.{lbads, LbaResult, lba_loop, lba_crypt}

-- The first `n` blocks of `x`, each transformed by `f` on its own.
pub map_blocks : (List ℕ → List ℕ) → ℕ → List ℕ → List ℕ
map_blocks f zero x = []
map_blocks f (suc n) x = f (take 512 x) ++ map_blocks f n (drop 512 x)

pub length-map_blocks :
    (f : List ℕ → List ℕ)
    → ((x : List ℕ) → length x ≡ 512 → length (f x) ≡ 512)
    → (n : ℕ) (x : List ℕ) → 512 * n ≤ length x
    → length (map_blocks f n x) ≡ 512 * n
unfolding map_blocks
length-map_blocks f keeps zero x h = refl
length-map_blocks f keeps (suc n) x h = omega (
  arith,
  length-append (f (take 512 x)) (map_blocks f n (drop 512 x)),
  keeps (take 512 x) (omega (arith, length-take 512 x)),
  length-map_blocks f keeps n (drop 512 x) (omega (arith, length-drop 512 x)),
)

-- Only the blocks themselves are looked at.
pub map_blocks-append :
    (f : List ℕ → List ℕ) (n : ℕ) (x y : List ℕ)
    → length x ≡ 512 * n
    → map_blocks f n (x ++ y) ≡ map_blocks f n x
unfolding map_blocks
map_blocks-append f zero x y h = refl
map_blocks-append f (suc n) x y h =
    rw (take-append_le 512 x y (omega arith), drop-append_le 512 x y (omega arith))
      (ap (λ t. f (take 512 x) ++ t)
        (map_blocks-append f n (drop 512 x) y (omega (arith, length-drop 512 x))))

module _ (e : Evp) (crypt : List ℕ → Session e → AesResult e) (f : List ℕ → List ℕ) where
  -- One block is transformed by `f`, at its length.
  abbrev pub BlockIs : Type 0
  BlockIs =
      (x : List ℕ) (s : Session e)
      → length x ≡ 512
      → ((crypt x s).ret ≡ pos 512) × ((crypt x s).out ≡ f x) × (length (f x) ≡ 512)

  -- The outcome of a loop that has done all `n` blocks that were left at `sz`.
  pub record Done (sz n : ℕ) (input out : List ℕ) (r : LbaResult e) : Type 0 where
    pub ret : r.ret ≡ pos (sz + 512 * n)
    pub room : length r.out ≡ length out
    pub bytes : take (sz + 512 * n) r.out ≡ take sz out ++ map_blocks f n (drop sz input)

  length_block :
      (sz : ℕ) (input : List ℕ)
      → sz + 512 ≤ length input
      → length (take lbads (drop sz input)) ≡ 512
  length_block sz input h = omega (arith, length-take lbads (drop sz input), length-drop sz input)

  -- A round with a whole block left goes on with the next one.
  lba_loop_step :
      BlockIs
      → (fuel sz len : ℕ) (input out : List ℕ) (s : Session e) → sz < len
      → sz + 512 ≤ length input
      → sz + 512 ≤ length out
      → lba_loop e crypt (suc fuel) sz len input out s
        ≡ lba_loop e crypt fuel
            (sz + lbads)
            len
            input
            (blit out sz (f (take lbads (drop sz input))))
            (crypt (take lbads (drop sz input)) s).session
  unfolding lba_loop
  lba_loop_step block fuel sz len input out s h hi ho =
      ground (arith, block (take lbads (drop sz input)) s (length_block sz input hi))

  -- The blocks from the second on, behind the first one.
  Done-step :
      (sz n : ℕ) (input out : List ℕ) (r : LbaResult e)
      → length (f (take lbads (drop sz input))) ≡ 512
      → sz + 512 ≤ length out
      → Done (sz + lbads) n input (blit out sz (f (take lbads (drop sz input)))) r
      → Done sz (suc n) input out r
  Done-step sz n input out r whole ho done =
      let y = f (take lbads (drop sz input)) in
      let end : sz + 512 * suc n ≡ sz + lbads + 512 * n = omega arith in
      let first : take (sz + lbads) (blit out sz y) ≡ take sz out ++ y =
        take-blit_end out sz y (sz + lbads) (omega arith) (omega arith) in
      record {
        ret = done.ret ∙ ap pos (sym end);
        room = done.room ∙ length-blit out sz y (omega arith);
        bytes =
            ap (λ k. take k r.out) end
            ∙ done.bytes
            ∙ ap₂ (λ (a b : List ℕ). a ++ b) first
                (ap (map_blocks f n) (sym (drop-drop 512 sz (sz + lbads) input (omega arith))))
            ∙ append_assoc (take sz out) y (map_blocks f n (drop 512 (drop sz input)))
            ∙ unfold map_blocks in refl;
      }

  pub lba_loop-Done :
      BlockIs
      → (n fuel sz len : ℕ) (input out : List ℕ) (s : Session e) → n < fuel
      → len ≡ sz + 512 * n
      → len ≤ length input
      → len ≤ length out
      → (r : LbaResult e) × (lba_loop e crypt fuel sz len input out s ≡ some r)
        × Done sz n input out r
  lba_loop-Done block n zero sz len input out s h e₁ hi ho = absurd (omega arith)
  lba_loop-Done block zero (suc fuel) sz len input out s h e₁ hi ho = (
    record { ret = pos len; out = out; session = s },
    unfold lba_loop in ground arith,
    record {
      ret = ap pos (omega arith);
      room = refl;
      bytes =
          let same : sz + 512 * 0 ≡ sz = omega arith in unfold map_blocks in rw (append-nil, same);
    },
  )
  lba_loop-Done block (suc n) (suc fuel) sz len input out s h e₁ hi ho =
      let x = take lbads (drop sz input) in
      let fits = block x s (length_block sz input (omega arith)) in
      let (r, runs, done) =
        lba_loop-Done block n fuel (sz + lbads) len input (blit out sz (f x)) (crypt x s).session
          (omega arith) (omega arith) hi
          (omega (arith, length-blit out sz (f x) (omega (arith, fits.2)))) in
      (
        r,
        lba_loop_step block fuel sz len input out s (omega arith) (omega arith) (omega arith)
            ∙ runs,
        Done-step sz n input out r fits.2 (omega arith) done,
      )

  -- Where each call transforms a block of 512 bytes into 512 bytes and returns 512, and both buffers
  -- hold the transfer: a transfer of `n` whole blocks returns its length, and leaves the transformed
  -- blocks at the output pointer; the fuel suffices, and no access is out of range.
  pub lba_crypt-Done :
      BlockIs
      → (n : ℕ) (input out : List ℕ) (s : Session e) → 512 * n ≤ length input
      → 512 * n ≤ length out
      → (r : LbaResult e) × (lba_crypt e crypt (pos (512 * n)) input out s ≡ some r)
        × Done 0 n input out r
  lba_crypt-Done block n input out s hi ho =
      let (r, runs, done) =
        lba_loop-Done block n (suc (512 * n / lbads)) 0 (512 * n) input out s (omega arith)
          (omega arith) hi ho in
      (r, unfold lba_crypt in ground arith, done)

-- A length that is no multiple of 512 is refused before anything is written.
pub lba_crypt_unaligned :
    (e : Evp) (crypt : List ℕ → Session e → AesResult e) (len : ℤ) (input out : List ℕ)
    (s : Session e)
    → low_nine_bits len ≢ 0
    → lba_crypt e crypt len input out s ≡ some (record { ret = negsuc 0; out = out; session = s })
unfolding lba_crypt
lba_crypt_unaligned e crypt len input out s h = ground arith

-- Decryption of encrypted blocks gives the blocks back.
pub map_blocks-map_blocks :
    (f g : List ℕ → List ℕ)
    → ((x : List ℕ) → length x ≡ 512 → length (f x) ≡ 512)
    → ((x : List ℕ) → length x ≡ 512 → g (f x) ≡ x)
    → (n : ℕ) (x rest : List ℕ) → 512 * n ≤ length x
    → map_blocks g n (map_blocks f n x ++ rest) ≡ take (512 * n) x
map_blocks-map_blocks f g keeps inverse zero x rest h = unfold map_blocks in refl
map_blocks-map_blocks f g keeps inverse (suc n) x rest h =
    let block : length (take 512 x) ≡ 512 = omega (arith, length-take 512 x) in
    let y = f (take 512 x) in
    let tail = map_blocks f n (drop 512 x) ++ rest in
    let whole : length y ≡ 512 = keeps (take 512 x) block in
    let split : map_blocks f (suc n) x ++ rest ≡ y ++ tail =
      unfold map_blocks in append_assoc y (map_blocks f n (drop 512 x)) rest in
    let ih : map_blocks g n tail ≡ take (512 * n) (drop 512 x) =
      map_blocks-map_blocks f g keeps inverse n (drop 512 x) rest
        (omega (arith, length-drop 512 x)) in
    let first : g (take 512 (y ++ tail)) ≡ take 512 x =
      ap g (take-append 512 y tail whole) ∙ inverse (take 512 x) block in
    let others : map_blocks g n (drop 512 (y ++ tail)) ≡ take (512 * n) (drop 512 x) =
      ap (map_blocks g n) (drop-append 512 y tail whole) ∙ ih in
    let opened : map_blocks g (suc n) (y ++ tail)
        ≡ g (take 512 (y ++ tail)) ++ map_blocks g n (drop 512 (y ++ tail)) =
      unfold map_blocks in refl in
    ap (map_blocks g (suc n)) split
    ∙ opened
    ∙ ap₂ (λ (a b : List ℕ). a ++ b) first others
    ∙ sym (take_add 512 (512 * n) (512 * suc n) x (omega arith))
