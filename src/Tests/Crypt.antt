-- ===== src/Tests/Crypt.antt =====
-- The command handler of firmware/crypt with a toy cipher, which adds 1 to each byte.
use nvme_csd.Base.{
  ℕ, suc, ◌+◌, ◌-◌, ◌^◌, ◌≡◌, inl, inr, refl, ap, arith, pos, List, [], ◌∷◌, ◌++◌, some, length,
  replicate, map,
}
use Prim.Native.Nat.{pred}
use nvme_csd.Crypt.Evp.{Evp, Direction, IsCbc}
use nvme_csd.Crypt.Aes.{Session, aes_crypt, aes_encrypt}
use nvme_csd.Crypt.Aes.Laws.{live-aes_crypt}
use nvme_csd.Crypt.Lba.{LbaResult, lba_crypt}
use nvme_csd.Crypt.Lba.Laws.{Done, lba_crypt-Done, map_blocks}
use nvme_csd.Crypt.Handler.{handle, reply}
use nvme_csd.Crypt.Handler.Laws.{success, internal_error, Sends, encrypt_block}
use nvme_csd.Crypt.Handler.Replies.{handle_write, handle_read, handle_round_trip}
use nvme_csd.Crypt.Handler.Errors.{handle_unaligned, handle_other}
use nvme_csd.Crypt.Handler.Reads.{Answers, handle_truncated, handle_total}
use nvme_csd.Crypt.Main.{key, iv, Input, serve, waiting}
use nvme_csd.Crypt.Nvme.{rw_command, prps, behind_opcode}
use nvme_csd.Crypt.Spec.{Command}
use nvme_csd.Crypt.Spec.Refine.{AreAnswered, serve_refines}

-- A library whose contexts carry nothing, and whose state counts them.
abbrev toy_direction : (List ℕ → List ℕ) → Direction (Unit {0})
toy_direction f = record {
  init = λ c k v. (pos 1, tt);
  update = λ c x. (pos 1, f x, tt);
  final = λ c. (pos 1, [], tt);
}

abbrev toy_enc : List ℕ → List ℕ
toy_enc = map suc

abbrev toy_dec : List ℕ → List ℕ
toy_dec = map pred

abbrev toy : Evp
toy = record {
  Ctx = Unit {0};
  Lib = ℕ;
  new = λ l. (some tt, l + 1);
  free = λ c l. l;
  set_padding = λ c n. tt;
  encrypt = toy_direction toy_enc;
  decrypt = toy_direction toy_dec;
}

length-toy_enc : (x : List ℕ) → length (toy_enc x) ≡ length x
length-toy_enc [] = refl
length-toy_enc (b ∷ x) = ap suc (length-toy_enc x)

length-toy_dec : (x : List ℕ) → length (toy_dec x) ≡ length x
length-toy_dec [] = refl
length-toy_dec (b ∷ x) = ap suc (length-toy_dec x)

toy_dec-toy_enc : (x : List ℕ) → toy_dec (toy_enc x) ≡ x
toy_dec-toy_enc [] = refl
toy_dec-toy_enc (b ∷ x) = ap (λ t. b ∷ t) (toy_dec-toy_enc x)

toy-IsCbc : IsCbc toy key iv toy_enc toy_dec
toy-IsCbc = record {
  memory = λ l. (tt, l + 1, refl);
  encrypts = λ c x h. (tt, tt, tt, refl, refl, refl);
  decrypts = λ c x h. (tt, tt, tt, refl, refl, refl);
  length-enc = λ x h. length-toy_enc x;
  length-dec = λ x h. length-toy_dec x;
  dec-enc = λ x h. toy_dec-toy_enc x;
}

abbrev start : Session toy
start = record { lib = 0; live = 0 }

-- One block, the rest of a command, and an output buffer.
abbrev block : List ℕ
block = replicate 512 7

abbrev tail : List ℕ
tail = replicate 63 0

abbrev room : List ℕ
room = replicate 600 9

handle_round_trip_example :
    (stored : List ℕ) × Sends toy key iv 600
      (handle toy key iv (pos 576) (1 ∷ tail ++ (block ++ [])) room start)
      (success ++ stored)
    × Sends toy key iv 600
        (handle toy key iv (pos 576) (2 ∷ tail ++ (stored ++ [])) room start)
        (success ++ block)
handle_round_trip_example =
    handle_round_trip toy key iv toy_enc toy_dec toy-IsCbc 1 (omega arith) (omega arith) 1 tail tail
      block [] [] room room start start (inl refl) refl refl refl (omega arith) (omega arith)

handle_total_example :
    Answers toy key iv 600 116 (handle toy key iv (pos 164) (2 ∷ replicate 163 1) room start)
handle_total_example =
    handle_total toy key iv toy-IsCbc 100 (2 ∷ replicate 163 1) room start (omega arith)
      (omega arith) (omega arith)

abbrev inputs : List Input
inputs =
    record { ret = pos 576; bytes = 1 ∷ tail ++ replicate 536 3 }
    ∷ record { ret = pos 64; bytes = 0 ∷ replicate 599 3 }
    ∷ []

handle_write_example :
    Sends toy key iv 600
      (handle toy key iv (pos 576) (8 ∷ tail ++ block) room start)
      (success ++ map_blocks toy_enc 1 block)
handle_write_example =
    handle_write toy key iv toy_enc toy_dec toy-IsCbc 1 (omega arith) (omega arith)
      (8 ∷ tail ++ block) room start (inr refl) (omega arith) (omega arith)

handle_read_example :
    Sends toy key iv 600
      (handle toy key iv (pos 576) (2 ∷ tail ++ block) room start)
      (success ++ map_blocks toy_dec 1 block)
handle_read_example =
    handle_read toy key iv toy_enc toy_dec toy-IsCbc 1 (omega arith) (omega arith)
      (2 ∷ tail ++ block) room start refl (omega arith) (omega arith)

handle_unaligned_example :
    Sends toy key iv 600
      (handle toy key iv (pos 67) (1 ∷ tail ++ (5 ∷ 6 ∷ 7 ∷ [])) room start)
      (internal_error ++ (9 ∷ 9 ∷ 9 ∷ []))
handle_unaligned_example =
    handle_unaligned toy key iv 3 (1 ∷ tail ++ (5 ∷ 6 ∷ 7 ∷ [])) room start (inr (inl refl))
      (omega arith) (omega arith) (omega arith)

-- A compare command, opcode 5.
handle_other_example :
    Sends toy key iv 600
      (handle toy key iv (pos 67) (5 ∷ tail ++ (5 ∷ 6 ∷ 7 ∷ [])) room start)
      (internal_error ++ (5 ∷ 6 ∷ 7 ∷ []))
handle_other_example =
    handle_other toy key iv 3 (5 ∷ tail ++ (5 ∷ 6 ∷ 7 ∷ [])) room start (omega arith) (omega arith)
      (omega arith) (omega arith) (omega arith)

handle_truncated_example :
    handle toy key iv (pos 20) (2 ∷ tail) room start
    ≡ some (reply (internal_error ++ replicate 584 9) (2 ^ 64 - 28) start)
handle_truncated_example =
    handle_truncated toy key iv 20 (2 ∷ tail) room start (inl refl) (omega arith) (omega arith)
      (omega arith)

live-aes_crypt_example :
    (aes_crypt toy toy.encrypt key iv (1 ∷ 2 ∷ []) (record { lib = 0; live = 3 })).session.live ≡ 3
live-aes_crypt_example =
    live-aes_crypt toy toy.encrypt key iv (1 ∷ 2 ∷ []) (record { lib = 0; live = 3 })

lba_crypt-Done_example :
    (r : LbaResult toy) × (lba_crypt toy (aes_encrypt toy key iv) (pos 512) block room start
      ≡ some r)
    × Done toy (aes_encrypt toy key iv) toy_enc 0 1 block room r
lba_crypt-Done_example =
    lba_crypt-Done toy (aes_encrypt toy key iv) toy_enc
      (encrypt_block toy key iv toy_enc toy_dec toy-IsCbc) 1 block room start (omega arith)
      (omega arith)

abbrev write_block : Command
write_block = record {
  header =
      rw_command
        (record {
          opcode = 1;
          flags = 0;
          command_id = 7;
          nsid = 1;
          cdw2 = 0;
          cdw3 = 0;
          metadata = 0;
          dptr = prps 4096 0;
        })
        (record {
          slba = 300;
          length = 0;
          control = 0;
          dsmgmt = 0;
          reftag = 0;
          apptag = 0;
          appmask = 0;
        });
  text = block;
}

abbrev write_input : Input
write_input = record {
  ret = pos 576;
  bytes = 1 ∷ behind_opcode write_block.header ++ (block ++ replicate 24 0);
}

serve_refines_example :
    (s' : Session toy) × ((serve toy (write_input ∷ []) room start).ending ≡ waiting s')
    × AreAnswered toy_enc toy_dec 600
        (write_block ∷ [])
        (serve toy (write_input ∷ []) room start).writes
serve_refines_example =
    serve_refines toy toy_enc toy_dec toy-IsCbc 600 (omega arith) (write_block ∷ [])
      (write_input ∷ []) room start
      ((record { ret = refl; more = replicate 24 0; bytes = refl; size = refl }), tt) refl
