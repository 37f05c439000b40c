-- ===== src/Crypt/Nvme.antt =====
-- The commands and completions of firmware/crypt/main.c as they lie in memory. A field of one byte is
-- that byte, a longer one a number whose lowest byte stands first.
use nvme_csd.Base.{ℕ, List, [], ◌∷◌, ◌++◌, le_bytes, length, ◌≡◌, refl, ◌+◌, arith, length-append}

-- `struct nvme_sgl_desc`
pub record SglDesc : Type 0 where
  pub addr : ℕ
  pub length : ℕ
  pub rsvd : ℕ
  pub type : ℕ

-- `struct nvme_keyed_sgl_desc`
pub record KeyedSglDesc : Type 0 where
  pub addr : ℕ
  pub length : ℕ
  pub key : ℕ
  pub type : ℕ

-- `union nvme_data_ptr`
pub data DataPtr : Type 0 where
  prps : (prp1 prp2 : ℕ) → DataPtr
  sgl : SglDesc → DataPtr
  ksgl : KeyedSglDesc → DataPtr

-- What `struct nvme_common_command` and `struct nvme_rw_command` both begin with.
pub record Head : Type 0 where
  pub opcode : ℕ
  pub flags : ℕ
  pub command_id : ℕ
  pub nsid : ℕ
  pub cdw2 : ℕ
  pub cdw3 : ℕ
  pub metadata : ℕ
  pub dptr : DataPtr

-- `cdws` of `struct nvme_common_command`
pub record CommonTail : Type 0 where
  pub cdw10 : ℕ
  pub cdw11 : ℕ
  pub cdw12 : ℕ
  pub cdw13 : ℕ
  pub cdw14 : ℕ
  pub cdw15 : ℕ

-- The rest of `struct nvme_rw_command`
pub record RwTail : Type 0 where
  pub slba : ℕ
  pub length : ℕ
  pub control : ℕ
  pub dsmgmt : ℕ
  pub reftag : ℕ
  pub apptag : ℕ
  pub appmask : ℕ

-- `struct nvme_command`
pub data NvmeCommand : Type 0 where
  common : Head → CommonTail → NvmeCommand
  rw_command : Head → RwTail → NvmeCommand

-- `struct nvme_completion`, whose `result` is the 8 bytes of the union.
pub record NvmeCompletion : Type 0 where
  pub result : ℕ
  pub sq_head : ℕ
  pub sq_id : ℕ
  pub command_id : ℕ
  pub status : ℕ

abbrev dptr_bytes : DataPtr → List ℕ
dptr_bytes (prps prp1 prp2) = le_bytes 8 prp1 ++ le_bytes 8 prp2
dptr_bytes (sgl d) =
    le_bytes 8 d.addr ++ (le_bytes 4 d.length ++ (le_bytes 3 d.rsvd ++ (d.type ∷ [])))
dptr_bytes (ksgl d) =
    le_bytes 8 d.addr ++ (le_bytes 3 d.length ++ (le_bytes 4 d.key ++ (d.type ∷ [])))

-- What follows the opcode, up to the part that the two structures share no more.
abbrev head_bytes : Head → List ℕ → List ℕ
head_bytes h tail =
    h.flags ∷ le_bytes 2 h.command_id
    ++ (le_bytes 4 h.nsid
        ++ (le_bytes 4 h.cdw2
            ++ (le_bytes 4 h.cdw3 ++ (le_bytes 8 h.metadata ++ (dptr_bytes h.dptr ++ tail)))))

abbrev common_bytes : CommonTail → List ℕ
common_bytes t =
    le_bytes 4 t.cdw10
    ++ (le_bytes 4 t.cdw11
        ++ (le_bytes 4 t.cdw12
            ++ (le_bytes 4 t.cdw13 ++ (le_bytes 4 t.cdw14 ++ le_bytes 4 t.cdw15))))

abbrev rw_bytes : RwTail → List ℕ
rw_bytes t =
    le_bytes 8 t.slba
    ++ (le_bytes 2 t.length
        ++ (le_bytes 2 t.control
            ++ (le_bytes 4 t.dsmgmt
                ++ (le_bytes 4 t.reftag ++ (le_bytes 2 t.apptag ++ le_bytes 2 t.appmask)))))

abbrev pub opcode_of : NvmeCommand → ℕ
opcode_of (common h t) = h.opcode
opcode_of (rw_command h t) = h.opcode

-- What follows the opcode.
abbrev pub behind_opcode : NvmeCommand → List ℕ
behind_opcode (common h t) = head_bytes h (common_bytes t)
behind_opcode (rw_command h t) = head_bytes h (rw_bytes t)

-- `NVME_SC_SUCCESS`
abbrev pub nvme_sc_success : ℕ
nvme_sc_success = 0x0

-- A completion with this status, and all other fields 0.
abbrev pub completed : ℕ → NvmeCompletion
completed status = record { result = 0; sq_head = 0; sq_id = 0; command_id = 0; status = status }

abbrev pub completion_bytes : NvmeCompletion → List ℕ
completion_bytes c =
    le_bytes 8 c.result
    ++ (le_bytes 2 c.sq_head
        ++ (le_bytes 2 c.sq_id ++ (le_bytes 2 c.command_id ++ le_bytes 2 c.status)))

length-dptr_bytes : (d : DataPtr) → length (dptr_bytes d) ≡ 16
length-dptr_bytes (prps prp1 prp2) = refl
length-dptr_bytes (sgl d) = refl
length-dptr_bytes (ksgl d) = refl

length-head_bytes : (h : Head) (tail : List ℕ) → length (head_bytes h tail) ≡ 39 + length tail
length-head_bytes h tail =
    omega (arith, length-append (dptr_bytes h.dptr) tail, length-dptr_bytes h.dptr)

-- A command has 64 bytes.
pub length-behind_opcode : (c : NvmeCommand) → length (behind_opcode c) ≡ 63
length-behind_opcode (common h t) = omega (arith, length-head_bytes h (common_bytes t))
length-behind_opcode (rw_command h t) = omega (arith, length-head_bytes h (rw_bytes t))
