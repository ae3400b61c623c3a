-- ===== src/Server/Defs.antt =====
-- The upgrade as the application drives it: the requests `/upgrade/start`, `/upgrade/metadata`,
-- `/upgrade/complete` and `/stop` of `http_handler` (app/http/ApiHandler.h), the turn of the loop in
-- `process_run` (app/process/Process.cpp), and the calls of the enclave behind them
-- (enclave/Enclave.cpp). The requests run one after the other.
use spacex_storage.Prelude.{
  ℕ, Bool, true, false, not, ◌&&◌, Option, none, some, ℤ, pos, ◌-ℤ◌, ltb_ℤ, eq_ℤ, Text,
  if◌then◌else◌,
}
use spacex_storage.Status.{SpacexStatus, is_success, none_yet, process, done, is_upgrade_none}
use spacex_storage.Workload.Defs.{Workload, set_upgrade_status, can_report_work}
use spacex_storage.AppData.Defs.{
  AppData, AppUpgrade, no_upgrade, stop_workreport, in_process, end, complete, exit, is_no_upgrade,
  same_upgrade, set_upgrade_state, set_upgrade_data,
}

-- The state of the application, `tryout` being `upgrade_tryout` of `process_run`, and of the enclave.
pub record System : Type 0 where
  pub app : AppData
  pub enclave : Workload
  pub tryout : ℤ

-- `ecall_enable_upgrade`
unfoldable pub ecall_enable_upgrade : ℕ → Workload → Workload × SpacexStatus
ecall_enable_upgrade block_height w =
    let status = can_report_work block_height w in
    (if is_success status then set_upgrade_status process w else w, status)

-- `ecall_disable_upgrade`
unfoldable pub ecall_disable_upgrade : Workload → Workload
ecall_disable_upgrade w = set_upgrade_status none_yet w

-- `ecall_stop_all`; what `id_store_metadata` stores is left out.
unfoldable pub ecall_stop_all : Workload → Workload
ecall_stop_all w = set_upgrade_status done w

-- The guard with which the entry points of the enclave begin that are closed during an upgrade:
-- `refused` is what they return then.
unfoldable pub unless_upgrading {ℓ} : {A : Type ℓ} → A → (Workload → A) → Workload → A
unless_upgrading refused entry w = if is_upgrade_none w.upgrade_status then entry w else refused

-- `set_upgrade_status` of the application. `disables` tells whether the call of SGX at its end works,
-- which is only made for `no_upgrade` and whose result is not looked at.
unfoldable pub set_status : Bool → AppUpgrade → System → System
unfolding set_upgrade_state ecall_disable_upgrade
set_status disables status s = record s {
  app = set_upgrade_state status s.app;
  enclave =
      if same_upgrade s.app.upgrade_status status
      then s.enclave
      else if is_no_upgrade status && disables
      then ecall_disable_upgrade s.enclave
      else s.enclave;
}

-- The status that the application has.
abbrev pub status_of : System → AppUpgrade
status_of s = s.app.upgrade_status

abbrev pub is_stop_workreport : AppUpgrade → Bool
is_stop_workreport stop_workreport = true
is_stop_workreport _ = false

abbrev pub is_exit : AppUpgrade → Bool
is_exit exit = true
is_exit _ = false

abbrev pub is_complete : AppUpgrade → Bool
is_complete complete = true
is_complete _ = false

abbrev pub is_end : AppUpgrade → Bool
is_end end = true
is_end _ = false

abbrev pub is_in_process : AppUpgrade → Bool
is_in_process in_process = true
is_in_process _ = false

-- `/upgrade/start`, with the height of the block if the chain gives one, and whether the call of SGX
-- works; the response's code stands beside the state.
unfoldable pub upgrade_start : Option ℕ → Bool → System → System × ℕ
upgrade_start header worked s =
    if not (is_no_upgrade (status_of s)) && not (is_stop_workreport (status_of s))
    then (s, 502)
    else (let s' = set_status true stop_workreport s in
        elim header [
          | none ↦ (s', 400)
          | some block_height ↦
              if not worked
              then (s', 500)
              else (let (w, status) = ecall_enable_upgrade block_height s'.enclave in
                  let s'' : System = record s' { enclave = w } in
                  if is_success status then (set_status true in_process s'', 200) else (s'', 400))
        ])

-- `/upgrade/metadata`: the code, and the data if they are ready.
unfoldable pub upgrade_metadata : System → ℕ × Option Text
upgrade_metadata s =
    if is_complete (status_of s) then (200, some s.app.upgrade_data) else (502, none)

-- `/upgrade/complete`, with the parameter if it is right; what the database does is only reported.
unfoldable pub upgrade_complete : Option Bool → Bool → System → System × ℕ
upgrade_complete none disables s = (s, 400)
upgrade_complete (some false) disables s = (set_status disables no_upgrade s, 200)
upgrade_complete (some true) disables s =
    (if is_complete (status_of s) then set_status true exit s else s, 200)

-- `/stop`, once the wait for the running tasks is over. No branch sets the response's code, which
-- stays `bad_request`.
unfoldable pub stop : Bool → System → System × ℕ
stop worked s =
    if not worked
    then (s, 400)
    else (set_status true exit (record s { enclave = ecall_stop_all s.enclave }), 400)

-- A request: its code for the loop is 501 once the application is to exit.
pub data Request : Type 0 where
  ask_start : Option ℕ → Bool → Request
  ask_metadata : Request
  ask_complete : Option Bool → Bool → Request
  ask_stop : Bool → Request

unfoldable pub serve : Request → System → System × ℕ
serve (ask_start header worked) s = upgrade_start header worked s
serve ask_metadata s = (s, (upgrade_metadata s).0)
serve (ask_complete result disables) s = upgrade_complete result disables s
serve (ask_stop worked) s = stop worked s

-- `http_handler` for these requests.
unfoldable pub handle : Request → System → System × ℕ
handle request s = if is_exit (status_of s) then (s, 501) else serve request s

-- What a turn of the loop meets: the calls of the enclave that hold an upgrade back, the block's height,
-- whether SGX works, what `Ecall_gen_upgrade_data` does, with the data that it stores outside, and
-- whether the call of `Ecall_disable_upgrade` works.
pub record Turn : Type 0 where
  pub ecalls_num : ℤ
  pub header : Option ℕ
  pub worked : Bool
  pub gen : ℕ → Workload → Workload × SpacexStatus × Option Text
  pub disables : Bool

-- `upgrade_timeout / check_interval`: 3 slots of 1200 blocks of 3 seconds, in turns of 15 seconds
abbrev pub full_tryout : ℤ
full_tryout = pos 720

unfoldable pub store_data : Option Text → AppData → AppData
unfolding set_upgrade_data
store_data none d = d
store_data (some text) d = set_upgrade_data text d

-- The first part of the turn: the calls that hold the upgrade back are over.
unfoldable pub end_calls : Turn → System → System
end_calls turn s =
    if is_in_process (status_of s) && eq_ℤ turn.ecalls_num (pos 0) then set_status true end s else s

-- The second part: the generation of the upgrade data.
unfoldable pub gen_data : Turn → System → System
gen_data turn s = if not (is_end (status_of s)) then s else elim (turn.header) [
  | none ↦ s
  | some block_height ↦
      if not turn.worked
      then s
      else (let (w, status, made) = turn.gen block_height s.enclave in
          let s' : System = record s { app = store_data made s.app; enclave = w } in
          if is_success status then set_status true complete s' else s')
]

-- The third part: the upgrade is given up after a while.
unfoldable pub count_down : Bool → System → System
count_down disables s =
    if is_no_upgrade (status_of s)
    then s
    else (let left = s.tryout -ℤ pos 1 in
        if ltb_ℤ left (pos 0)
        then record (set_status disables no_upgrade (record s { tryout = left })) {
          tryout = full_tryout;
        }
        else record s { tryout = left })

-- A turn of the loop in `process_run`, without the tasks that it starts again and the sleep at its end,
-- which leaves the loop when the application is to exit and no task runs any more.
unfoldable pub check_turn : Turn → System → System
check_turn turn s = count_down turn.disables (gen_data turn (end_calls turn s))
