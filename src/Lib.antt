-- ===== src/Lib.antt =====
-- A verification library for the storage node spacex-storage: an enclave that seals space on disk
-- ("srd") and files, proves both to the chain in work reports, and an application around it.
--
-- The parts, and the files that model them:
--
-- Prelude -- Boolean tests, lists, integers over the native numbers, and strings as lists of bytes in
--     the order of `std::string::compare`.
-- Status -- the result codes of src/enclave/include/CrustStatus.h that the modelled functions return,
--     the upgrade states, and the characters of a file's status string (include/Parameter.h).
-- Hex -- `char_to_int`, `hexstring_safe` and `hex_string_to_bytes` of src/enclave/utils/EUtils.cpp.
-- Base58 -- `base58_encode` and `hash_to_cid` of EUtils.cpp.
-- Files -- the vector `sealed_files` of src/enclave/workload/Workload.cpp. Defs has the binary search
--     `is_file_dup_nolock` and the insertions and deletions; Search measures the search by a walk from
--     the start; Order and Place say what a content id finds afterwards.
-- SrdMeta -- the entries of sealed space, the figures shown of them and the buffer of entries to
--     delete (Workload.cpp and Workload.h); Delete, Counts and Restore have their properties.
-- SrdTask -- `srd_change`, `srd_increase`, `srd_decrease`, `srd_remove_space` and `change_srd_task` of
--     src/enclave/srd/Srd.cpp.
-- Workload -- the class `Workload` as a record, its counters, flags, keys and statistics. Deleted has
--     `deal_deleted_file`, Recover `recover_illegal_file`, Restore the storing and restoring of the
--     files, and Info the two root hashes that stand for the sealed space and the files.
-- Report -- src/enclave/report/Report.cpp and `handle_report_result`. Defs has the gathering of the
--     files and their confirmation, Generate the functions that make and upload a report.
-- Identity -- the metadata and the upgrade of src/enclave/identity/Identity.cpp: Metadata stores and
--     restores the workload, Upgrade exports it from an old enclave and imports it into a new one.
-- Storage -- `storage_seal_file_start`, `storage_seal_file_end`, `storage_delete_file` and
--     `check_seal_file_dup` of src/enclave/storage/Storage.cpp; Pending has `pending_files_um`,
--     Block `get_hashs_from_block`, and Seal `storage_seal_file`, which seals one block of a file.
-- Validator -- src/enclave/validator/Validator.cpp: Choice draws the entries and files of a round,
--     Space and Files check them and record what has changed.
-- Queue -- src/app/ecalls/EnclaveQueue.cpp. Defs has the maps and their functions, Threads lets
--     threads run `try_get_enclave` and `free_enclave` side by side, one locked section at a time.
-- AppData -- the table of files, the sizes of pending files, the upgrade state and the map of disks of
--     src/app/process/EnclaveData.cpp.
-- Transfer -- data that crosses the border of the enclave in parts: Defs has `safe_ocall_store2`
--     (EUtils.cpp), `safe_ecall_store2` (src/app/utils/Common.cpp) and the two functions that gather the
--     parts (src/enclave/Enclave.cpp, src/app/ocalls/OCalls.cpp); Persist has the storing of values of
--     src/enclave/persistence/Persistence.cpp and src/app/ocalls/PersistOCalls.cpp.
-- Disks -- src/app/process/Srd.cpp: Defs finds the disks and spreads a change over them, Change does the
--     tasks of a turn, Reserved checks the reserved space. Blocks chooses the disk of a file's block
--     (src/app/ocalls/IpfsOCalls.cpp).
-- Server -- the application from outside: Defs has the requests that drive an upgrade
--     (src/app/http/ApiHandler.h), the turns of the main process (src/app/process/Process.cpp) and the entry
--     points of the enclave behind them; Requests and Seal have the requests that change the sealed space
--     and the files, and Url the reading of parameters and addresses. Agree and Guarded compare where the
--     application and the enclave stand in an upgrade.
-- Schedule -- src/app/process/WorkReport.cpp: Defs has the loop that asks the enclave for work reports.
-- Tests -- the theorems at concrete inputs.
--
-- How the code is modelled. A function of the class takes the record and returns the new one, with
-- its result; a deferred block is applied wherever the function is left. JSON objects are records; a
-- key that is missing reads as the JSON library reads it. Calls out of the enclave that matter are
-- appended to the list `calls`. What SGX, the disk and the chain answer (hashes, signatures, storing,
-- allocation, upload) are parameters. `size_t` sums in the report's gates wrap at 64 bits; signed
-- numbers are integers, since their overflow is undefined in C++. Each function of the enclave runs
-- as a whole, so its locks are not modelled, save that `srd_change` lets other threads change the
-- task at its two gaps; the queue's threads interleave at every lock.
--
-- A read before the start of a block, or behind its end, is out of range. A hash of no bytes is refused by
-- SGX, so the root of files that are all pending is what the variable held, an argument.
--
-- Bounds and fuel. The binary search has fuel for the length of the vector and two rounds more: its
-- interval starts one place longer than the vector and shrinks in every round, so it always ends. The
-- parser of a block reads a size in at most eleven rounds, since the shift then reaches 64, and a link
-- takes a byte at least, so a round more than the bytes of the block is enough. The loop over the
-- slots in `id_gen_upgrade_data` has the block's height and one as its fuel, and each round takes it
-- 1200 blocks on. A transfer sends a byte at least in every round, so the length of the data is
-- enough; a round over the disks that goes on makes the change smaller, so the change and one are
-- enough; the choice of a disk makes 40 rounds; an item of the parameters takes a character. All other
-- loops are structural. An `int` of the parser has 32 bits and wraps; what a
-- shift by 32 or more gives is a parameter, as C++ leaves it undefined.
--
-- Between the application and the enclave: a call of SGX that fails does not run, and whether it fails is
-- an argument, also where the code does not look at it (`Ecall_disable_upgrade`); the calls that store
-- values outside of the enclave work; the requests and the
-- turns of the main process run one after the other; the size of a part is an argument, which is
-- 4 megabytes in the code; the tasks of a turn are a list, and how each of them ends is an argument.
--
-- Not modelled: the remote attestation of the identity and the sealed storage of the enclave, which
-- are calls of SGX and OpenSSL; the removal of folders, which is a file operation; the sockets of the
-- server, the clients of the chain, IPFS and the database, the files, the configuration and the log of
-- the application, which are input and output; the requests that only show data; and the start-up of the
-- processes. The threads of a validation round run one after the other. The JSON library is another
-- project's; the reading of a number is taken from it, and records stand for the objects.
pub mod Prelude
pub mod Status
pub mod Hex
pub mod Base58
pub mod Files
pub mod SrdMeta
pub mod SrdTask
pub mod Workload
pub mod Report
pub mod Identity
pub mod Storage
pub mod Validator
pub mod Queue
pub mod AppData
pub mod Transfer
pub mod Disks
pub mod Server
pub mod Schedule
pub mod Tests
