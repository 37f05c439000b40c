-- ===== src/Crypt/Main/Laws.antt =====
-- The run of firmware/crypt/main.c over a sequence of commands.
use nvme_csd.Base.{
  ℕ, ◌+◌, ◌^◌, ◌≤◌, ◌<◌, ◌≡◌, refl, ◌∙◌, ap, pos, List, [], ◌∷◌, some, length, map, arith,
}
use nvme_csd.Crypt.Evp.{Evp, IsCbc}
use nvme_csd.Crypt.Aes.{Session}
use nvme_csd.Crypt.Handler.{reply, handle}
use nvme_csd.Crypt.Handler.Reads.{handle_total}
use nvme_csd.Crypt.Main.{Input, key, iv, serve, waiting}

-- A command of 64 bytes, read in full with `data_size` bytes behind it into a buffer of `room`
-- bytes.
pub record IsCommand (room : ℕ) (input : Input) (data_size : ℕ) : Type 0 where
  pub ret : input.ret ≡ pos (64 + data_size)
  pub inside : 64 + data_size ≤ room
  pub size : length input.bytes ≡ room

-- The reads of a run, each a command with data of the size at its place.
abbrev pub AreCommands : ℕ → List Input → List ℕ → Type 0
AreCommands room [] [] = Unit
AreCommands room (input ∷ inputs) (n ∷ sizes) =
    IsCommand room input n × AreCommands room inputs sizes
AreCommands room [] (n ∷ sizes) = ⊥
AreCommands room (input ∷ inputs) [] = ⊥

module _ (e : Evp) (enc dec : List ℕ → List ℕ) (cbc : IsCbc e key iv enc dec) (room : ℕ)
    (small : room < 2 ^ 31) where
  -- Under the documented behaviour of the cipher, with an output buffer of `room` bytes, below
  -- 2 ^ 31, and commands that were read in full: every command of the run is answered, in order and
  -- once, by a completion and as many bytes as its data has, and then the loop waits for the next
  -- one.
  pub serve_commands :
      (inputs : List Input) (sizes : List ℕ) (bout : List ℕ) (s : Session e)
      → AreCommands room inputs sizes
      → length bout ≡ room
      → (s' : Session e) × ((serve e inputs bout s).ending ≡ waiting s')
        × (map (λ w. w.1) (serve e inputs bout s).writes ≡ map (λ n. 16 + n) sizes)
  unfolding serve
  serve_commands [] [] bout s c h = (s, refl, refl)
  serve_commands [] (n ∷ sizes) bout s c h = absurd c
  serve_commands (input ∷ inputs) [] bout s c h = absurd c
  serve_commands (input ∷ inputs) (n ∷ sizes) bout s c h =
      let (out, s₁, answered, size, inside) =
        handle_total e key iv cbc n input.bytes bout s (omega arith) (omega arith) (omega arith) in
      let (s', waits, written) = serve_commands inputs sizes out s₁ c.1 (size ∙ h) in
      let step : handle e key iv input.ret input.bytes bout s ≡ some (reply out (16 + n) s₁) =
        ap (λ r. handle e key iv r input.bytes bout s) c.0.ret ∙ answered in
      (s', rw (step, serve) waits, rw (step, serve) (ap (λ l. (16 + n) ∷ l) written))
