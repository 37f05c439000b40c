-- ===== src/Tests/Demos.antt =====
-- The demos of host/demos over a small device.
use nvme_csd.Tests.Cs.{start, fit}
use nvme_csd.Base.{
  if◌then◌else◌, ℕ, ◌+◌, ◌*◌, ◌%◌, ◌^◌, ◌≤◌, ◌<◌, ◌≡◌, arith, pos, to_int, List, [], ◌∷◌, ◌++◌,
  some, Bool, true, false, ◌||◌, ◌==◌, replicate, blit, take, drop, le_bytes,
}
use nvme_csd.Cs.Sys.{
  block_device, AdminCommand, admin_passthru, fstat, close, stat, pread, load_word, Machine, after,
  Env,
}
use nvme_csd.Cs.Tsp.{tsp_cs_id_string}
use nvme_csd.Demos.Session.{Locals}
use nvme_csd.Demos.Checksum.{
  ChecksumFlag, checksum_device, checksum_iterations, align_4k, alloc_region,
}
use nvme_csd.Demos.Checksum.Runs.{Prints}
use nvme_csd.Demos.Checksum.Sizes.{align_4k_bounds, alloc_region-align_4k}
use nvme_csd.Demos.Sleep.{SleepFlag, sleep_device, sleep_length}

align_4k_bounds_example :
    (n : ℕ) × (to_int (align_4k 5000) ≡ pos n) × (n % 4096 ≡ 0) × (5000 ≤ n) × (n < 5000 + 4096)
align_4k_bounds_example = align_4k_bounds 5000 (omega arith)

-- What a device says that has compute, and a CSE with one function; and what it says else: every
-- kind of function, and an address of memory.
abbrev pub answer : Bool → List ℕ
answer true = tsp_cs_id_string ++ replicate 71 0 ++ (1 ∷ [])
answer false = 1 ∷ 1 ∷ []

-- It identifies itself, and tells its properties.
abbrev pub asks_itself : AdminCommand → Bool
asks_itself c = c.cdw10 == 0 || c.cdw11 == 8

-- The device, and a system with a file of 5000 bytes.
abbrev pub quiet : Env (Unit {0})
quiet (admin_passthru c) s = (
  record { ret = pos 0; buffer = fit c.data_len (answer (asks_itself c)); kind = block_device },
  s,
)
quiet (fstat fd) s = (record { ret = pos 0; buffer = []; kind = block_device }, s)
quiet (close fd) s = (record { ret = pos 0; buffer = []; kind = block_device }, s)
quiet (stat name) s = (record { ret = pos 0; buffer = le_bytes 8 5000; kind = block_device }, s)
quiet (pread fd address size) s = (record { ret = pos size; buffer = []; kind = block_device }, s)
quiet (load_word address) s =
    (record { ret = pos 0; buffer = le_bytes 4 77; kind = block_device }, s)
quiet call s = (record { ret = pos 3; buffer = []; kind = block_device }, s)

abbrev pub locals : Locals
locals = record { csx = some (replicate 4096 0); props = replicate 4096 0; caps = replicate 8 0 }

-- What is printed from, and the name in it.
abbrev shown : Bool → List ℕ
shown b = blit (replicate 4096 0) 0 (take 108 (fit 4096 (answer b)))

abbrev friendly : Bool → List ℕ
friendly true = drop 8 tsp_cs_id_string
friendly false = []

-- "-d p -l 20".
abbrev flags : List SleepFlag
flags = sleep_device (112 ∷ []) ∷ sleep_length (50 ∷ 48 ∷ []) ∷ []

-- "-d p -i 2".
abbrev pub checksum_flags : List ChecksumFlag
checksum_flags = checksum_device (112 ∷ []) ∷ checksum_iterations (50 ∷ []) ∷ []

alloc_region-align_4k_example :
    (alloc_region quiet (pos 3) (align_4k (2 ^ 32 * 1 + 5)) start
      ≡ alloc_region quiet (pos 3) 4096 start)
    × (4096 < 2 ^ 32 * 1 + 5)
alloc_region-align_4k_example =
    alloc_region-align_4k quiet (pos 3) 1 5 start (omega arith) (omega arith) (omega arith)
      (omega arith)

-- A device that counts 81 CSEs.
abbrev crowded : Env (Unit {0})
crowded (admin_passthru c) s = (
  record {
    ret = pos 0;
    buffer =
        fit c.data_len (if c.cdw10 == 0 then tsp_cs_id_string else replicate 56 0 ++ (81 ∷ []));
    kind = block_device;
  },
  s,
)
crowded call s = (record { ret = pos 3; buffer = []; kind = block_device }, s)

-- The question who it is, and the machine after it.
abbrev identify_command : AdminCommand
identify_command = record {
  fd = pos 3;
  cdw10 = 0;
  cdw11 = 0;
  cdw12 = 0;
  cdw13 = 0;
  data_len = 4096;
  payload = [];
  timeout_ms = 0;
}

abbrev asked : Machine (Unit {0})
asked = after crowded (admin_passthru identify_command) start
