-- ===== src/Tests/Server.antt =====
-- The application's server and its loop at concrete inputs.
use spacex_storage.Prelude.{
  ◌+ℤ◌, ◌-ℤ◌, max_ℤ, ◌≡◌, refl, true, false, some, none, List, [], ◌∷◌, ◌++◌, ℤ, pos, Text, ◌⊎◌,
  compare_text,
}
use spacex_storage.Status.{process, success, upgrade_is_upgrading, SpacexStatus, is_upgrade_none}
use spacex_storage.Workload.Defs.{
  can_report_work, report_has_validated_proof, get_restart_flag, set_upgrade_status,
}
use spacex_storage.Files.Defs.{is_file_dup}
use spacex_storage.SrdTask.Defs.{SrdState, change_srd_task}
use spacex_storage.Storage.Defs.{storage_delete_file, storage_seal_file_start}
use spacex_storage.AppData.Maps.{lookup_key}
use spacex_storage.AppData.Defs.{AppData, no_upgrade, in_process, type_valid, find_file_type}
use spacex_storage.Identity.Upgrade.{UpgradeData}
use spacex_storage.Server.Defs.{
  System, Turn, ask_start, ask_complete, handle, serve, upgrade_start, upgrade_complete, set_status,
  ecall_enable_upgrade, status_of, full_tryout, unless_upgrading,
}
use spacex_storage.Server.Agree.{Agrees, Event, request, turn, run, IsExporter}
use spacex_storage.Server.Guarded.{is_idle, some_fail, run-Agrees_or_idle}
use spacex_storage.Server.Exporter.{ecall_gen_upgrade_data, ecall_gen_upgrade_data-IsExporter}
use spacex_storage.Server.Timeout.{turns, upgrade_times_out, next_upgrade-tryout}
use spacex_storage.Server.Requests.{
  Route, storage_delete, storage_seal_start, srd_change_request, srd_change_code,
  ecall_change_srd_task, ecall_seal_file_start, srd_change, refusal, Figures, ecall_delete_file,
  storage_delete_request,
}
use spacex_storage.Server.Gate.{
  IsWithin, IsIdle, refusal-entries, srd_change_request-IsWithin, storage_delete_forgets,
}
use spacex_storage.Server.Url.{req_route, get_params}
use spacex_storage.Server.UrlRoundTrip.{
  print_params, put_params, get_params-print_params, get_params-req_route,
}
use spacex_storage.Tests.Data.{cid_a, cid_b, cid_c, sample, no_srd, sum_hash, all_well}
use spacex_storage.Tests.Hand.{lib, export_steps}

abbrev one_file : AppData
one_file = record {
  sealed_file = (type_valid, (cid_a, 1 ∷ []) ∷ []) ∷ [];
  pending_size = [];
  upgrade_data = [];
  upgrade_status = no_upgrade;
  disabled = 0;
  uuid_to_path = [];
  path_to_uuid = [];
}

-- No upgrade, and one that has a turn left.
abbrev idle : System
idle = record { app = one_file; enclave = sample; tryout = full_tryout }

abbrev waiting : System
waiting = record idle { app = record one_file { upgrade_status = in_process }; tryout = pos 1 }

abbrev print : UpgradeData → Text
print made = cid_b

abbrev one_turn : Turn
one_turn = record {
  ecalls_num = pos 0;
  header = some 3000;
  worked = true;
  gen = ecall_gen_upgrade_data lib print export_steps;
  disables = true;
}

ecall_gen_upgrade_data-IsExporter_example :
    IsExporter (ecall_gen_upgrade_data lib print export_steps)
ecall_gen_upgrade_data-IsExporter_example = ecall_gen_upgrade_data-IsExporter lib print export_steps

abbrev events : List Event
events =
    request (ask_start (some 3000) true)
    ∷ turn one_turn
    ∷ request (ask_complete (some true) true)
    ∷ []

run-Agrees_or_idle_example :
    Agrees (run events idle)
    ⊎ ((is_idle (status_of (run events idle)) ≡ true) × (some_fail events ≡ true))
run-Agrees_or_idle_example =
    run-Agrees_or_idle events idle
      (tt, (ecall_gen_upgrade_data-IsExporter lib print export_steps, (tt, tt))) refl

-- An upgrade is reported as failed, and the enclave is not told.
abbrev given_up : List Event
given_up = request (ask_start (some 3000) true) ∷ request (ask_complete (some false) false) ∷ []

enclave_stays_closed :
    ((run given_up idle).enclave.upgrade_status ≡ process)
    × (status_of (run given_up idle) ≡ no_upgrade)
unfolding handle serve upgrade_start upgrade_complete set_status ecall_enable_upgrade
    can_report_work report_has_validated_proof get_restart_flag set_upgrade_status
enclave_stays_closed = (refl, refl)

abbrev two_turns : List Turn
two_turns = one_turn ∷ one_turn ∷ []

upgrade_times_out_example :
    (status_of (run (turns two_turns) waiting) ≡ no_upgrade)
    × ((run (turns two_turns) waiting).tryout ≡ full_tryout)
upgrade_times_out_example = upgrade_times_out 1 two_turns waiting refl refl refl

next_upgrade-tryout_example :
    (run
      (request (ask_complete (some false) true)
        ∷ (turns two_turns ++ request (ask_start (some 3000) true) ∷ []))
      waiting).tryout
    ≡ pos 1
next_upgrade-tryout_example = next_upgrade-tryout true waiting two_turns (some 3000) true refl

abbrev srd_state : SrdState
srd_state = record { srd = no_srd; task = pos 2; stored = pos 2 }

refusal-entries_example :
    let refused = λ (route : Route). refusal route (status_of idle) in
    let changed = ecall_change_srd_task (pos 3) success sample srd_state in
    let removed = ecall_delete_file sum_hash cid_a all_well sample in
    let started = ecall_seal_file_start cid_c cid_c sample in
    ((refused srd_change ≡ none)
      × (refused storage_delete ≡ none)
      × (refused storage_seal_start ≡ none)
      × (changed ≡ change_srd_task (pos 3) success srd_state)
      × (removed ≡ storage_delete_file sum_hash cid_a all_well sample)
      × (started ≡ storage_seal_file_start cid_c cid_c sample))
    ⊎ ((refused srd_change ≡ some 501)
        × (refused storage_delete ≡ some 501)
        × (refused storage_seal_start ≡ some 501)
        × (changed ≡ (srd_state, pos 0, upgrade_is_upgrading))
        × (removed ≡ (sample, upgrade_is_upgrading))
        × (started ≡ (sample, upgrade_is_upgrading)))
refusal-entries_example =
    refusal-entries sum_hash idle (pos 3) success srd_state cid_a cid_c cid_c all_well refl

abbrev figures : Figures
figures = record {
  srd_complete = pos 4;
  srd_remaining_task = pos 1;
  disk_avail_for_srd = pos 9;
  running_srd_task = pos 2;
}

abbrev add_task : ℤ → ℤ → ℤ × ℤ × SpacexStatus
add_task change task = (task +ℤ change, change, success)

srd_change_request-IsWithin_example :
    let left = max_ℤ (pos 9 -ℤ pos 2) (pos 0) -ℤ pos 1 in
    let there = pos 4 +ℤ pos 1 +ℤ pos 2 in
    let (task, code) = srd_change_request add_task figures (some (pos 20)) true (pos 1) in
    ((task ≡ pos 1) × (code ≡ 400) × IsIdle (pos 20) left there)
    ⊎ ((asked : ℤ) × IsWithin (pos 20) left there asked
        × (task ≡ (add_task asked (pos 1)).0)
        × (code ≡ srd_change_code (add_task asked (pos 1)).2))
srd_change_request-IsWithin_example =
    srd_change_request-IsWithin add_task figures (pos 20) true (pos 1)

deleted_code : (storage_delete_request sum_hash all_well (some cid_a) true idle).1 ≡ 200
unfolding storage_delete_request ecall_delete_file unless_upgrading storage_delete_file is_file_dup
    compare_text
deleted_code = refl

storage_delete_forgets_example :
    let r = storage_delete_request sum_hash all_well (some cid_a) true idle in
    (find_file_type cid_a r.0.app ≡ none)
    × (ecall_delete_file sum_hash cid_a all_well idle.enclave ≡ (r.0.enclave, success))
    × (is_upgrade_none idle.enclave.upgrade_status ≡ true)
storage_delete_forgets_example =
    storage_delete_forgets sum_hash all_well cid_a true idle deleted_code

get_params-print_params_example :
    get_params (cid_a ++ b'?' ∷ print_params (cid_b, cid_c) ((cid_c, []) ∷ []))
    ≡ put_params ((cid_b, cid_c) ∷ (cid_c, []) ∷ []) ((req_route, cid_a) ∷ [])
get_params-print_params_example =
    get_params-print_params cid_a (cid_b, cid_c) ((cid_c, []) ∷ []) refl (refl, refl, refl)
      ((refl, refl, refl), tt)

get_params-req_route_example :
    lookup_key req_route (get_params (cid_a ++ b'?' ∷ (req_route ++ b'=' ∷ cid_b))) ≡ some cid_b
get_params-req_route_example = get_params-req_route cid_a cid_b refl refl

abbrev port_80 : Text → ℤ
port_80 text = pos 80

abbrev url : Text
url = cid_a ++ (b':' ∷ b'/' ∷ b'/' ∷ []) ++ (cid_b ++ b':' ∷ (cid_c ++ b'/' ∷ cid_a))
