-- ===== src/Tests/Hand.antt =====
-- Metadata and upgrades at concrete inputs.
use spacex_storage.Prelude.{
  ℕ, zero, suc, ◌+◌, ◌-◌, ◌%◌, ◌<◌, ◌≤◌, ◌≡◌, ◌≢◌, refl, ap, true, false, some, none, List, [], ◌∷◌,
  pos, Text, length, take, text_eq, compare_text, if◌then◌else◌, inr, arith,
}
use spacex_storage.Status.{success, done, upgrade_gen_workreport_failed}
use spacex_storage.Hex.{IsBytes, hexstring}
use spacex_storage.Base58.Defs.{zeros}
use spacex_storage.Workload.Defs.{Workload, report_slot, set_upgrade_status}
use spacex_storage.Workload.Restore.{settled}
use spacex_storage.Workload.Info.{
  srd_root_hash, file_root_hash, get_upgrade_srd_info, get_upgrade_file_info,
}
use spacex_storage.Report.Generate.{Library, Outside, zero_hash}
use spacex_storage.Identity.Metadata.{members, metadata_of, id_restore_metadata, pub_key_size}
use spacex_storage.Identity.MetadataRoundTrip.{IsStorable, IsFresh, id_restore_metadata-metadata_of}
use spacex_storage.Identity.Upgrade.{
  ExportSteps, ImportSteps, slot_height, export_signed, export_workload, import_workload,
  id_gen_upgrade_data,
}
use spacex_storage.Identity.HandOver.{handed_over}
use spacex_storage.Identity.Slots.{slot_height_ends}
use spacex_storage.Identity.Accept.{import_workload-export_workload}
use spacex_storage.Identity.Refuse.{import_workload_only_pending, id_gen_upgrade_data_at_slot}
use spacex_storage.Tests.Data.{sample, file_b, sum_hash}

zeros-IsBytes : (n : ℕ) → IsBytes (zeros n)
unfolding zeros
zeros-IsBytes zero = tt
zeros-IsBytes (suc n) = (omega arith, zeros-IsBytes n)

length-zeros : (n : ℕ) → length (zeros n) ≡ n
unfolding zeros
length-zeros zero = refl
length-zeros (suc n) = ap suc (length-zeros n)

-- The sample with keys of their sizes.
abbrev keyed : Workload
keyed = record sample { key_pair = zeros 96; pre_pub_key = zeros 64 }

abbrev all_pending : Workload
all_pending = record keyed { sealed_files = file_b ∷ [] }

abbrev fresh : Workload
fresh = record sample { sealed_files = []; is_set_key_pair = false; key_pair = [] }

keyed-IsStorable : IsStorable keyed
keyed-IsStorable = record {
  key_bytes = zeros-IsBytes 96;
  key_length = length-zeros 96;
  pre_bytes = zeros-IsBytes 64;
  pre_length = length-zeros 64;
  items = tt;
}

fresh-IsFresh : IsFresh fresh
fresh-IsFresh = record { no_srd = refl; no_files = refl; no_key = refl; no_upgrade = refl }

abbrev digits : ℕ → Text
digits n = 48 ∷ []

id_restore_metadata-metadata_of_example :
    let (r, status) = id_restore_metadata true (members (metadata_of digits keyed)) fresh in
    (status ≡ success)
    × (r.key_pair ≡ keyed.key_pair)
    × (r.is_set_key_pair ≡ true)
    × (r.account_id ≡ keyed.account_id)
    × (r.srd.hashs ≡ keyed.srd.hashs)
    × (r.sealed_files ≡ settled keyed.sealed_files)
    × (r.upgrade ≡ keyed.upgrade)
    × (r.pre_pub_key ≡ (if keyed.upgrade then keyed.pre_pub_key else fresh.pre_pub_key))
    × (r.report_height ≡ 0)
    × (r.restart_flag ≡ pos 1)
id_restore_metadata-metadata_of_example =
    id_restore_metadata-metadata_of digits true keyed fresh keyed-IsStorable fresh-IsFresh

slot_height_ends_example :
    (r : ℕ) × (slot_height (suc 5000) 5000 1200 ≡ some r)
    × (5000 ≤ r + report_slot)
    × (r < 5000)
    × (1200 ≤ r)
    × ((r - 1200) % report_slot ≡ 0)
slot_height_ends_example = slot_height_ends 5000 1200 (omega arith) (omega arith)

abbrev pub lib : Library
lib = record {
  sha256 = sum_hash;
  sign = λ bytes. some (zeros 64);
  to_text = λ n. 48 ∷ [];
  dump = λ es. [];
}

-- Every signature of the sample is 64 zeros.
signed_zeros : (sig : List ℕ) → some (zeros 64) ≡ some sig → zeros 64 ≡ sig
signed_zeros sig e = cc

scheme :
    (bytes sig : List ℕ)
    → lib.sign bytes ≡ some sig
    → IsBytes sig × (length sig ≡ pub_key_size) × (true ≡ true)
scheme bytes sig e = rw⁻¹ (signed_zeros sig e) (zeros-IsBytes 64, length-zeros 64, refl)

abbrev pub report_steps : Outside
report_steps = record {
  srd_buffer = true;
  files_buffer = true;
  dumped = success;
  stored = success;
  uploaded = success;
}

abbrev pub export_steps : ExportSteps
export_steps = record {
  hash_status = success;
  block_hash = 7 ∷ [];
  report = report_steps;
  context = true;
  memory = record { srd_buffer = true; files_buffer = true; unset = 9 ∷ [] };
  dumped = success;
  stored = success;
}

abbrev import_steps : ImportSteps
import_steps = record {
  told = true;
  memory = record { srd_buffer = true; files_buffer = true; unset = 9 ∷ [] };
  context = true;
  verify = λ key bytes sig. true;
  network = success;
  to_number = λ text. 0;
  report = report_steps;
}

keyed_exported : export_workload lib export_steps 1200 keyed ≡ (
  set_upgrade_status done keyed,
  success,
  some (handed_over lib export_steps 1200 keyed (zeros 64)),
)
unfolding export_workload export_signed get_upgrade_srd_info get_upgrade_file_info srd_root_hash
    file_root_hash settled
keyed_exported = refl

keyed_settled : settled keyed.sealed_files ≢ []
unfolding settled
keyed_settled e = cc

import_workload-export_workload_example :
    let d = handed_over lib export_steps 1200 keyed (zeros 64) in
    let (r, status) = import_workload lib import_steps d (take pub_key_size keyed.key_pair) fresh in
    (status ≡ success)
    × (r.srd.hashs ≡ keyed.srd.hashs)
    × (r.sealed_files ≡ settled keyed.sealed_files)
import_workload-export_workload_example =
    import_workload-export_workload lib export_steps import_steps 1200 keyed fresh tt fresh-IsFresh
      (set_upgrade_status done keyed) (handed_over lib export_steps 1200 keyed (zeros 64))
      keyed_exported refl refl refl scheme (inr keyed_settled)

pending_exported : export_workload lib export_steps 1200 all_pending ≡ (
  set_upgrade_status done all_pending,
  success,
  some (handed_over lib export_steps 1200 all_pending (zeros 64)),
)
unfolding export_workload export_signed get_upgrade_srd_info get_upgrade_file_info srd_root_hash
    file_root_hash settled
pending_exported = refl

pending_settled : settled all_pending.sealed_files ≡ []
unfolding settled
pending_settled = refl

roots_differ : text_eq (hexstring zero_hash) (hexstring export_steps.memory.unset) ≡ false
unfolding hexstring compare_text
roots_differ = refl

import_workload_only_pending_example :
    (import_workload lib import_steps
      (handed_over lib export_steps 1200 all_pending (zeros 64))
      (take pub_key_size all_pending.key_pair)
      fresh).1
    ≢ success
import_workload_only_pending_example =
    import_workload_only_pending lib export_steps import_steps 1200 all_pending
      (set_upgrade_status done all_pending) fresh
      (handed_over lib export_steps 1200 all_pending (zeros 64)) pending_exported tt fresh-IsFresh
      (λ e. cc) pending_settled roots_differ

id_gen_upgrade_data_at_slot_example :
    id_gen_upgrade_data lib export_steps (keyed.report_height + report_slot) keyed
    ≡ (keyed, upgrade_gen_workreport_failed, none)
id_gen_upgrade_data_at_slot_example =
    id_gen_upgrade_data_at_slot lib export_steps keyed (omega arith) refl
