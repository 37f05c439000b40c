-- ===== src/Lib.antt =====
-- The userspace parts of an NVMe computational storage device: the firmware process that encrypts
-- what a host writes, the host library that finds such a device and gives it work, and the relay
-- that carries a socket over it.
--
-- The crypt firmware (firmware/crypt) reads one NVMe command after the other from the device file
-- of the kernel's endpoint driver, each with its data behind it, and writes back a completion and
-- the data: encrypted for a write, decrypted for a read, in blocks of 512 bytes.
--   Crypt/Evp       the OpenSSL calls of aes_cbc.c, a parameter (Evp), and what their documents say
--                   of AES-256-CBC without padding (IsCbc)
--   Crypt/Aes       aes_cbc.c: aes_encrypt and aes_decrypt, which have one body (aes_crypt) in two
--                   directions; a Session counts the contexts that are made and not yet freed
--   Crypt/Lba       lba_encrypt and lba_decrypt of main.c, and their loop over blocks (lba_loop)
--   Crypt/Nvme      commands and completions of main.c, as records and as they lie in memory
--   Crypt/Handler   one round of the loop of main: from what read returned (handle) over the transfer
--                   by opcode (transfer) to the completion and the length that write is given
--                   (complete)
--   Crypt/Main      main: the options, the calls that can fail before the loop, and the loop (serve)
--                   over a list of reads
--   Crypt/Spec      what a host may expect for each command: a status and data (answer), with no word
--                   of buffers and contexts, which the loop refines
-- State is passed on: an output pointer is the list of bytes from it on, and a call returns its new
-- content, or none where an access is out of range.
--
-- The host library (host/snia_cs_api) implements a part of the SNIA computational storage API by
-- vendor admin commands with opcode 0xc0.
--   Cs/Sys          the system and device below the library: a call is answered by an environment
--                   (Env) with a state of its own and recorded in a trace; M is the monad of code
--                   that calls it; Cs/Sys/Keeps is about code that makes calls of given kinds only
--   Cs/Types        cs.h: status codes, argument types, the sizes and offsets of packed structures;
--                   Cs/Types/Layout, Cs/Types/Capabilities and Cs/Types/Request have the properties
--                   and capabilities of a device and compute requests as records, and as they lie in
--                   memory
--   Cs/Tsp          the static functions named tsp_... of cs_api_nvme_tsp.c, one per admin command
--   Cs/Discovery    csGetCSxFromPath, csOpenCSx, csGetCSEFromCSx and csOpenCSE
--   Cs/Memory       csAllocMem and csFreeMem
--   Cs/Query        csGetFunction and the three csQueryDevice... functions; Described and Offers are
--                   about what a client finds in the memory that they leave
--   Cs/Compute      csHelperSetComputeArg, xxDoComputeRequest and csQueueComputeRequest; Args is about
--                   the two together, how a request is filled in and sent
--   Cs/Utils        cs_utils.c: what is printed of a device's properties, as lines of values that are read
--                   from memory
-- A pointer that may be null is an option; for an output it holds the memory from the pointer on,
-- and a result none is undefined behaviour: an access outside that memory or a local buffer.
--
-- The socket relay (host/socket_relay/main.c) opens such a device through the host library and passes
-- bytes between one client's socket and a connection inside the device.
--   Relay           the commands that open, close, write and read a relay
--   Relay/Threads   the two threads: each call that they make is a step of one of them, and a run takes
--                   turns (communicate) in any order; Needs, Spares and Joins below it are about how
--                   many turns the threads need, Sides about each thread alone, Settles about bytes on
--                   their way
--   Relay/Main      main: the options, the device, the relay, and the sockets; Exits, Refuses and
--                   Delivers are about how it ends and what has arrived by then
-- It uses the machine of Cs/Sys; a failed assert is a result none too.
--
-- The demos (host/demos) are clients of the library on that machine.
--   Demos/Session   what both begin with: a device is found, opened and queried
--   Demos/Request   how they fill in a compute request
--   Demos/Checksum  checksum/checksum.c: a file is read into device memory, and its checksum computed;
--                   Laws is about the whole program, Prints about what follows csGetFunction
--   Demos/Sleep     sleep/sleep.c: the device sleeps for a while
--
-- The latency statistics (firmware/latency) go from the kernel to a table in two programs.
--   Latency/Extract extract_statistics.c: both buffers are copied to files
--   Latency/Csv     csv_from_buffer/csv_from_buffer.cpp: a file as lines of time stamps
--   Latency/Table   one after the other
--
-- Base holds what the parts share: tests on numbers, C integers of 32 and 64 bits (to_u64, to_u32,
-- to_int), memcpy, and numbers in little-endian bytes. Tests holds runs on concrete devices.
--
-- Bounds and fuel. The loop over blocks has fuel for one round per block and one more, which is
-- enough. The loops of main and of the threads run over a list of any length, of reads or of turns.
-- Sizes of data are below 2 ^ 31 where the code converts them to int; the buffers of main have
-- 262144 bytes.
--
-- Not modelled: output on the terminal, errno, the wording of errors; in cs_api_nvme_tsp.c the
-- deprecated tsp_nvme_get_csx_request and what stands under #if 0; the functions that cs.h declares
-- and no file defines; a failure of pthread_create or fwrite, whose results the code does not look
-- at; the macros of debug.h and error.h, which print and exit; how long a request of a demo takes.
pub mod Base
pub mod Crypt
pub mod Cs
pub mod Relay
pub mod Demos
pub mod Latency
mod Tests
