-- ===== src/Tests/Data.antt =====
-- Small inputs: two sealed files, a pending one, a workload, and the outcomes of outside steps.
use spacex_storage.Prelude.{ℕ, true, false, some, List, [], ◌∷◌, refl, ℤ, pos, Text, compare_text}
use spacex_storage.Status.{none_yet, success, valid, unverified}
use spacex_storage.Files.Defs.{SealedFile, IsSorted}
use spacex_storage.SrdMeta.Defs.{Srd, no_info}
use spacex_storage.Workload.Defs.{Workload, Spec, PendingFile}
use spacex_storage.Storage.Defs.{SealEnd, pending_entry}

abbrev pub cid_a : Text
cid_a = b'a' ∷ []

abbrev pub cid_b : Text
cid_b = b'b' ∷ []

abbrev pub cid_c : Text
cid_c = b'c' ∷ []

abbrev pub sealed_file : Text → ℕ → ℕ → ℤ → SealedFile
sealed_file cid current origin size = record {
  cid = cid;
  status = record { current = current; waiting = unverified; origin = origin };
  hash = 7 ∷ [];
  size = size;
  sealed_size = size;
  block_num = pos 1;
  chain_block_num = pos 5;
  lost_index = pos 0;
}

abbrev pub file_a : SealedFile
file_a = sealed_file cid_a valid unverified (pos 10)

abbrev pub file_b : SealedFile
file_b = pending_entry cid_b

abbrev pub two_files : List SealedFile
two_files = file_a ∷ file_b ∷ []

pub two_files-IsSorted : IsSorted two_files
unfolding compare_text
two_files-IsSorted = ((refl, tt), (tt, tt))

abbrev pub no_srd : Srd
no_srd = record { hashs = []; info = no_info; shown = no_info; deleted_idx = [] }

abbrev pub no_spec : Spec
no_spec = record { num = pos 0; total = pos 0 }

-- One block of the file was awaited, and came in.
abbrev pub whole_file : PendingFile
whole_file = record {
  blocks = (cid_b, pos 0) ∷ [];
  hash = 1 ∷ 2 ∷ [];
  size = pos 20;
  sealed_size = pos 30;
  block_num = pos 1;
}

abbrev pub sample : Workload
sample = record {
  srd = no_srd;
  sealed_files = two_files;
  reported_files_idx = [];
  pending_files = (cid_b, whole_file) ∷ [];
  deleted_cids = [];
  pending_spec = record { num = pos 1; total = pos 1 };
  valid_spec = record { num = pos 1; total = pos 10 };
  lost_spec = no_spec;
  report_height = 1200;
  restart_flag = pos 0;
  validated_srd_proof = pos 1;
  validated_file_proof = pos 2;
  report_files = true;
  upgrade = false;
  upgrade_status = none_yet;
  key_pair = 3 ∷ 4 ∷ [];
  is_set_key_pair = true;
  pre_pub_key = [];
  account_id = b'a' ∷ [];
  calls = [];
}

abbrev pub all_well : SealEnd
all_well = record { allocated = true; chain_block = some (pos 77); persisted = success }

abbrev pub sum_hash : List ℕ → List ℕ
sum_hash [] = 0 ∷ []
sum_hash (b ∷ bs) = b ∷ []

-- What the machine makes of a shift that C++ leaves undefined.
abbrev pub wide : ℕ → ℕ → ℕ
wide n shift = 0
