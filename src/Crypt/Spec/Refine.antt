-- ===== src/Crypt/Spec/Refine.antt =====
-- The loop of firmware/crypt/main.c does what is expected of it.
use nvme_csd.Base.{
  ℕ, ◌+◌, ◌*◌, ◌/◌, ◌%◌, ◌^◌, ◌≤◌, ◌<◌, ◌≡◌, ◌≢◌, ◌⊎◌, inl, inr, refl, sym, ◌∙◌, ap, subst, pos,
  List, [], ◌∷◌, ◌++◌, Option, some, length, take, drop, arith, length-append, length-take,
  length-drop, drop-append, take-append, ne→==, ==_iff,
}
use native.Mathlib.Decide.{ℕ_discrete}
use nvme_csd.Crypt.Evp.{Evp, IsCbc}
use nvme_csd.Crypt.Aes.{Session}
use nvme_csd.Crypt.Lba.Laws.{map_blocks, map_blocks-append}
use nvme_csd.Crypt.Handler.{
  nvme_cmd_write, nvme_cmd_read, nvme_cmd_write_zeroes, Round, reply, handle,
}
use nvme_csd.Crypt.Handler.Laws.{internal_error, success, Sends}
use nvme_csd.Crypt.Handler.Replies.{handle_write, handle_read}
use nvme_csd.Crypt.Handler.Errors.{IsCrypt, handle_unaligned, handle_no_data, handle_other}
use nvme_csd.Crypt.Main.{Input, key, iv, serve, waiting}
use nvme_csd.Crypt.Nvme.{opcode_of, behind_opcode, length-behind_opcode}
use nvme_csd.Crypt.Spec.{answer_to, Command, Answer, done, failed, whole_blocks, answer, Shows}

module _ (e : Evp) (enc dec : List ℕ → List ℕ) (cbc : IsCbc e key iv enc dec) where
  -- The round writes what shows the answer, from an output buffer that keeps its size.
  abbrev pub Meets : ℕ → Option (Round e key iv) → Answer → Type 0
  Meets room r a = (sent : List ℕ) × Sends e key iv room r sent × Shows a sent

  module _ (op : ℕ) (rest text more bout : List ℕ) (s : Session e) (hr : length rest ≡ 63)
      (small : length text < 2 ^ 31) (ho : 64 + length text + length more ≤ length bout) where
    abbrev bin : List ℕ
    bin = op ∷ rest ++ (text ++ more)

    abbrev round : Option (Round e key iv)
    round = handle e key iv (pos (64 + length text)) bin bout s

    length-bin : length bin ≡ 64 + length text + length more
    length-bin = omega (arith, length-append rest (text ++ more), length-append text more)

    drop-bin : drop 64 bin ≡ text ++ more
    drop-bin = drop-append 63 rest (text ++ more) hr

    Meets-whole :
        (f : List ℕ → List ℕ) (n : ℕ)
        → length text ≡ 512 * n
        → Sends e key iv (length bout) round (success ++ map_blocks f n (drop 64 bin))
        → Meets (length bout) round (done (map_blocks f n text))
    Meets-whole f n size sends = (
      success ++ map_blocks f n (drop 64 bin),
      sends,
      ap (λ x. success ++ x) (ap (map_blocks f n) drop-bin ∙ map_blocks-append f n text more size),
    )

    Meets-even :
        IsCrypt bin
        → 0 < length text
        → length text % 512 ≡ 0
        → (op ≡ nvme_cmd_read → Meets (length bout) round (whole_blocks dec text))
          × (op ≢ nvme_cmd_read → Meets (length bout) round (whole_blocks enc text))
    Meets-even crypt some_data even =
        let n = length text / 512 in
        let size : length text ≡ 512 * n = omega arith in
        let runs : round ≡ handle e key iv (pos (64 + 512 * n)) bin bout s =
          ap (λ k. handle e key iv (pos (64 + k)) bin bout s) size in
        rw ((==_iff (length text % 512) 0).1 even) (
          (λ r. Meets-whole dec n size (
              rw runs (
                handle_read e key iv enc dec cbc n (omega arith) (omega arith) bin bout s r
                  (omega (arith, length-bin)) (omega (arith, length-bin))))),
          (λ nr. Meets-whole enc n size (
              rw runs (
                handle_write e key iv enc dec cbc n (omega arith) (omega arith) bin bout s
                  (writes crypt nr) (omega (arith, length-bin)) (omega (arith, length-bin))))),
        )
      where
        writes :
            IsCrypt bin → op ≢ nvme_cmd_read → (op ≡ nvme_cmd_write) ⊎ (op ≡ nvme_cmd_write_zeroes)
        writes (inl r) nr = absurd (nr r)
        writes (inr w) nr = w

    Meets-odd :
        (f : List ℕ → List ℕ)
        → IsCrypt bin
        → length text % 512 ≢ 0
        → Meets (length bout) round (whole_blocks f text)
    Meets-odd f crypt odd =
        let m = length text in
        rw (ne→== (m % 512) 0 odd) (
          internal_error ++ take m (drop 16 bout),
          handle_unaligned e key iv m bin bout s crypt small odd (omega arith),
          (
            take m (drop 16 bout),
            omega (arith, length-take m (drop 16 bout), length-drop 16 bout),
            refl,
          ),
        )

    Meets-other : ¬ (IsCrypt bin) → 0 < length text → Meets (length bout) round (failed text)
    Meets-other other some_data =
        let m = length text in
        (
          internal_error ++ take m (drop 64 bin),
          handle_other e key iv m bin bout s other some_data small (omega (arith, length-bin))
              (omega arith),
          ap (λ x. internal_error ++ x) (ap (take m) drop-bin ∙ take-append m text more refl),
        )

    Meets-some : 0 < length text → Meets (length bout) round (answer_to enc dec op text)
    Meets-some some_data =
        rw (ne→== (length text) 0 (λ h. omega arith)) (elim (ℕ_discrete op nvme_cmd_read) [
          | yes r ↦ rw ((==_iff op nvme_cmd_read).1 r) (elim (ℕ_discrete (length text % 512) 0) [
            | yes even ↦ (Meets-even (inl r) some_data even).0 r
            | no odd ↦ Meets-odd dec (inl r) odd
          ])
          | no nr ↦ rw (ne→== op nvme_cmd_read nr) (elim (ℕ_discrete op nvme_cmd_write) [
            | yes w ↦ rw ((==_iff op nvme_cmd_write).1 w) (meets_writes nr (inr (inl w)))
            | no nw ↦ rw (ne→== op nvme_cmd_write nw) (elim (ℕ_discrete op nvme_cmd_write_zeroes) [
              | yes z ↦ rw ((==_iff op nvme_cmd_write_zeroes).1 z) (meets_writes nr (inr (inr z)))
              | no nz ↦
                  rw (ne→== op nvme_cmd_write_zeroes nz) (Meets-other (no_crypt nr nw nz) some_data)
            ])
          ])
        ])
      where
        meets_writes :
            op ≢ nvme_cmd_read → IsCrypt bin → Meets (length bout) round (whole_blocks enc text)
        meets_writes nr crypt = elim (ℕ_discrete (length text % 512) 0) [
          | yes even ↦ (Meets-even crypt some_data even).1 nr
          | no odd ↦ Meets-odd enc crypt odd
        ]

        no_crypt :
            op ≢ nvme_cmd_read → op ≢ nvme_cmd_write → op ≢ nvme_cmd_write_zeroes → ¬ (IsCrypt bin)
        no_crypt nr nw nz (inl r) = nr r
        no_crypt nr nw nz (inr (inl w)) = nw w
        no_crypt nr nw nz (inr (inr z)) = nz z

  meets :
      (c : Command) (more bout : List ℕ) (s : Session e)
      → length c.text < 2 ^ 31
      → 64 + length c.text + length more ≤ length bout
      → Meets
          (length bout)
          (handle e key iv
            (pos (64 + length c.text))
            (opcode_of c.header ∷ behind_opcode c.header ++ (c.text ++ more))
            bout
            s)
          (answer enc dec c)
  meets c more bout s small ho = go c.text small ho
    where
      go :
          (text : List ℕ)
          → length text < 2 ^ 31
          → 64 + length text + length more ≤ length bout
          → Meets
              (length bout)
              (handle e key iv
                (pos (64 + length text))
                (opcode_of c.header ∷ behind_opcode c.header ++ (text ++ more))
                bout
                s)
              (answer_to enc dec (opcode_of c.header) text)
      go [] small ho = (
        success,
        handle_no_data e key iv (opcode_of c.header ∷ behind_opcode c.header ++ more) bout s
            (omega arith),
        refl,
      )
      go (b ∷ text) small ho =
          Meets-some (opcode_of c.header) (behind_opcode c.header) (b ∷ text) more bout s
            (length-behind_opcode c.header) small ho (omega arith)

-- The command stands at the start of an input buffer of `room` bytes, and was read in full.
pub record IsRead (room : ℕ) (c : Command) (input : Input) : Type 0 where
  pub ret : input.ret ≡ pos (64 + length c.text)
  pub more : List ℕ
  pub bytes : input.bytes ≡ opcode_of c.header ∷ behind_opcode c.header ++ (c.text ++ more)
  pub size : 64 + length c.text + length more ≡ room

abbrev pub AreRead : ℕ → List Command → List Input → Type 0
AreRead room [] [] = Unit
AreRead room (c ∷ commands) (input ∷ inputs) = IsRead room c input × AreRead room commands inputs
AreRead room [] (input ∷ inputs) = ⊥
AreRead room (c ∷ commands) [] = ⊥

-- The writes show the answers to the commands, in their order, each from inside the buffer.
abbrev pub AreAnswered :
    (List ℕ → List ℕ) → (List ℕ → List ℕ) → ℕ → List Command → List (List ℕ × ℕ) → Type 0
AreAnswered enc dec room [] [] = Unit
AreAnswered enc dec room (c ∷ commands) ((out, k) ∷ writes) =
    (k ≤ room) × Shows (answer enc dec c) (take k out) × AreAnswered enc dec room commands writes
AreAnswered enc dec room [] (w ∷ writes) = ⊥
AreAnswered enc dec room (c ∷ commands) [] = ⊥

-- Under the documented behaviour of the cipher, with buffers of `room` bytes, below 2 ^ 31, and
-- commands of any fields and data that were read in full: the loop answers every command in order as
-- `answer` says, with a completion that has its status and is 0 otherwise, and then waits for the next
-- one.
pub serve_refines :
    (e : Evp) (enc dec : List ℕ → List ℕ) (cbc : IsCbc e key iv enc dec) (room : ℕ)
    → room < 2 ^ 31
    → (commands : List Command) (inputs : List Input) (bout : List ℕ) (s : Session e)
    → AreRead room commands inputs
    → length bout ≡ room
    → (s' : Session e) × ((serve e inputs bout s).ending ≡ waiting s')
      × AreAnswered enc dec room commands (serve e inputs bout s).writes
unfolding serve
serve_refines e enc dec cbc room small [] [] bout s c h = (s, refl, tt)
serve_refines e enc dec cbc room small [] (i ∷ inputs) bout s c h = absurd c
serve_refines e enc dec cbc room small (c ∷ commands) [] bout s a h = absurd a
serve_refines e enc dec cbc room small (c ∷ commands) (i ∷ inputs) bout s a h =
    let (sent, (out, k, s₁, answered, size, inside, bytes), shows) =
      meets e enc dec cbc c a.0.more bout s (omega (arith, a.0.size)) (omega (arith, a.0.size)) in
    let (s', waits, rest) =
      serve_refines e enc dec cbc room small commands inputs out s₁ a.1 (size ∙ h) in
    let step : handle e key iv i.ret i.bytes bout s ≡ some (reply out k s₁) =
      rw (a.0.ret, a.0.bytes) answered in
    (
      s',
      rw (step, serve) waits,
      rw (step, serve) ((omega arith), subst (Shows (answer enc dec c)) (sym bytes) shows, rest),
    )
