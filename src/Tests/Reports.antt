-- ===== src/Tests/Reports.antt =====
-- Work reports at concrete inputs.
use spacex_storage.Prelude.{ℕ, ◌≡◌, refl, true, false, some, List, [], ◌∷◌, Text, arith}
use spacex_storage.Status.{success, block_height_expired}
use spacex_storage.Workload.Defs.{get_restart_flag, report_has_validated_proof}
use spacex_storage.Workload.Gates.{
  AreGatesValid, GateOp, add_srd_proof, reset_proof, raise_flag, lower_flag,
}
use spacex_storage.Hex.{hex_string_to_bytes}
use spacex_storage.Report.Defs.{
  collect, collect_file, report_file, nothing_collected, handle_reported,
}
use spacex_storage.Report.Sizes.{origin_total, settled_total, files_size-totals}
use spacex_storage.Report.Generate.{
  Library, Outside, gen_work_report, gen_and_upload_work_report, make_report, sign_and_store,
  sig_buffer, srd_bytes, file_hashes,
}
use spacex_storage.Report.Once.{one_report_per_slot}
use spacex_storage.Tests.Data.{two_files, two_files-IsSorted, sample, sum_hash}

files_size-totals_example :
    ((collect false 0 two_files nothing_collected).1.files_size
      ≡ origin_total
          (handle_reported
            (collect false 0 two_files nothing_collected).1.reported
            (collect false 0 two_files nothing_collected).0).0)
    × ((collect true 0 two_files nothing_collected).1.files_size ≡ settled_total two_files)
    × ((collect true 0 two_files nothing_collected).0 ≡ two_files)
files_size-totals_example = files_size-totals two_files two_files-IsSorted

sample-AreGatesValid : AreGatesValid sample
sample-AreGatesValid = record {
  srd_low = omega arith;
  srd_high = omega arith;
  file_low = omega arith;
  file_high = omega arith;
  flag_low = omega arith;
  flag_high = omega arith;
}

abbrev ops : List GateOp
ops = add_srd_proof ∷ raise_flag ∷ lower_flag ∷ lower_flag ∷ reset_proof ∷ []

abbrev lib : Library
lib = record {
  sha256 = sum_hash;
  sign = λ b. some (9 ∷ []);
  to_text = λ n. 48 ∷ [];
  dump = λ es. 91 ∷ 93 ∷ [];
}

abbrev out : Outside
out = record {
  srd_buffer = true;
  files_buffer = true;
  dumped = success;
  stored = success;
  uploaded = success;
}

abbrev hash : Text
hash = 48 ∷ 49 ∷ []

one_report_per_slot_example :
    gen_and_upload_work_report lib out hash 3000 false
      (gen_and_upload_work_report lib out hash 2400 false sample).0
    ≡ ((gen_and_upload_work_report lib out hash 2400 false sample).0, block_height_expired)
one_report_per_slot_example =
    one_report_per_slot lib out out hash hash 2400 3000 false false sample (omega arith)
      (omega arith) (omega arith) (omega arith)

abbrev height : ℕ
height = 2400

generated : (gen_work_report lib out hash 2400 false sample).1 ≡ success
unfolding gen_work_report make_report sign_and_store sig_buffer file_hashes srd_bytes collect
    hex_string_to_bytes get_restart_flag report_has_validated_proof collect_file report_file
generated = refl
