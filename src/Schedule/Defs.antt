-- ===== src/Schedule/Defs.antt =====
-- `work_report_loop` and `get_random_wait_time` (app/process/WorkReport.cpp), with the entry point
-- `ecall_gen_and_upload_work_report` (enclave/Enclave.cpp). What comes from outside in a round is an
-- argument.
use spacex_storage.Prelude.{
  ℕ, ◌+◌, ◌-◌, ◌*◌, ◌%◌, ◌/◌, Bool, true, false, not, Option, none, some, List, [], ◌∷◌, ℤ, pos,
  ◌-ℤ◌, ltb_ℤ, Text, ltb, leb, if◌then◌else◌,
}
use spacex_storage.Status.{SpacexStatus, upgrade_is_upgrading}
use spacex_storage.Workload.Defs.{Workload, report_slot, interval_lower_limit}
use spacex_storage.Report.Generate.{Library, Outside, gen_and_upload_work_report}
use spacex_storage.Server.Defs.{unless_upgrading}

-- `BLOCK_INTERVAL`, in seconds, and `REPORT_INTERVAL_BLCOK_NUMBER_UPPER_LIMIT`
abbrev pub block_interval : ℕ
block_interval = 3

abbrev pub interval_upper_limit : ℕ
interval_upper_limit = 400

-- `get_random_wait_time`, with the random number.
abbrev pub get_random_wait_time : ℕ → ℕ
get_random_wait_time rand =
    (rand % (interval_upper_limit - interval_lower_limit + 1) + interval_lower_limit - 1)
    * block_interval

-- The start of the slot that a block is in.
abbrev pub slot_start : ℕ → ℕ
slot_start number = number / report_slot * report_slot

-- `cut_wait_time`, and `wait_time` as the loop makes it.
abbrev pub cut_wait_time : ℕ → ℕ
cut_wait_time number = (number - slot_start number) * block_interval

abbrev pub max : ℕ → ℕ → ℕ
max a b = if ltb a b then b else a

unfoldable pub wait_time : ℕ → ℕ → ℕ
wait_time rand number =
    let random = get_random_wait_time rand in
    let cut = cut_wait_time number in
    max (if leb random cut then 0 else random - cut) interval_lower_limit

-- The variables of the loop, and the enclave.
pub record Loop : Type 0 where
  pub target_block_height : ℕ
  pub stop_tryout : ℤ
  pub enclave : Workload

-- What a round meets: whether the process is to exit at its start, during the wait for the report and
-- at its end, the block's number if the chain gives one, whether the work reports are stopped for an
-- upgrade, the hash of the slot's first block if there is one, and how the call of the enclave goes.
pub record Round : Type 0 where
  pub exits : Bool
  pub header : Option ℕ
  pub stopped : Bool
  pub exits_waiting : Bool
  pub hash : Option Text
  pub worked : Bool
  pub out : Outside
  pub exits_after : Bool

-- A call of the enclave: the height, the enclave before it, and the status if SGX works.
pub record Ask : Type 0 where
  pub height : ℕ
  pub enclave : Workload
  pub status : Option SpacexStatus

-- `stop_timeout / wr_wait_time`
abbrev pub full_stop_tryout : ℤ
full_stop_tryout = pos 30

-- The target before the loop.
unfoldable pub first_target : Option ℕ → ℕ
first_target none = report_slot
first_target (some number) = (number / report_slot + 1) * report_slot

abbrev pub start : Option ℕ → Workload → Loop
start header w = record {
  target_block_height = first_target header;
  stop_tryout = full_stop_tryout;
  enclave = w;
}

-- While the work reports are stopped, a round is put off, but not more often than the tryout says.
unfoldable pub put_off : Bool → Loop → Loop × Bool
put_off stopped l =
    let left = l.stop_tryout -ℤ pos 1 in
    if not stopped
    then (l, false)
    else if ltb_ℤ left (pos 0)
    then (record l { stop_tryout = full_stop_tryout }, false)
    else (record l { stop_tryout = left }, true)

-- The call of a round before the later ones.
abbrev pub and_later : Option Ask → List Ask → List Ask
and_later none later = later
and_later (some ask) later = ask ∷ later

module _ (lib : Library) where
  -- `ecall_gen_and_upload_work_report`
  unfoldable pub ecall_gen_and_upload_work_report :
      Outside → Text → ℕ → Workload → Workload × SpacexStatus
  ecall_gen_and_upload_work_report out hash height w =
      unless_upgrading (w, upgrade_is_upgrading)
        (gen_and_upload_work_report lib out hash height false) w

  -- From the hash on, for the slot that begins at the height.
  unfoldable pub ask_report : Round → ℕ → Loop → Loop × Option Ask
  ask_report r height l = elim (r.hash) [
    | none ↦ (l, none)
    | some hash ↦
        let (w, status) = ecall_gen_and_upload_work_report r.out hash height l.enclave in
        (
          record l {
            target_block_height = height + report_slot;
            enclave = if r.worked then w else l.enclave;
          },
          some (record {
            height = height;
            enclave = l.enclave;
            status = if r.worked then some status else none;
          }),
        )
  ]

  -- A round: the loop afterwards, the calls of the enclave, and whether it goes on.
  unfoldable pub loop_round : Round → Loop → Loop × Option Ask × Bool
  loop_round r l = if r.exits then (l, none, false) else elim (r.header) [
    | none ↦ (l, none, not r.exits_after)
    | some number ↦
        let (l', later) = put_off r.stopped l in
        let (l'', asked) = ask_report r (slot_start number) l' in
        if ltb number l.target_block_height
        then (l, none, not r.exits_after)
        else if later
        then (l', none, not r.exits_after)
        else if r.exits_waiting
        then (l', none, false)
        else (l'', asked, not r.exits_after)
  ]

  -- `work_report_loop` over the rounds: the loop afterwards and the calls.
  unfoldable pub work_report_loop : List Round → Loop → Loop × List Ask
  work_report_loop [] l = (l, [])
  work_report_loop (r ∷ rs) l =
      let (l', asked, goes_on) = loop_round r l in
      let (l'', later) = work_report_loop rs l' in
      if goes_on then (l'', and_later asked later) else (l', and_later asked [])
