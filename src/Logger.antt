-- ===== src/Logger.antt =====
-- source/core/log-manager/FibpLogger.{h,cpp}: the record of each proxied call, in a ring of a million
-- slots, and the fiber that sends what has ended to the log server. Each call of a member is one
-- step; `now` is what gettimeofday returned. The counter of the calls has 64 bits and does not wrap
-- here.
pub mod Ring
pub mod Spec
pub mod Refine
pub mod Blocked
pub mod Points
pub mod Sender
pub mod Stats
pub mod Round
pub mod Reported
pub mod Rounds
pub mod Growing
use fiberproxy.Prelude.{
  ℕ, zero, suc, ◌+◌, ◌-◌, ◌%◌, ◌/◌, Bool, true, false, ◌&&◌, ◌||◌, not, List, [], ◌∷◌, ◌++◌, Option,
  none, some, Bytes, codes, if◌then◌else◌, ◌==◌, ltb, leb, lookup_or, insert, bytes_key,
}

abbrev pub max_log_num : ℕ
max_log_num = 1000000

abbrev pub max_log_send_num : ℕ
max_log_send_num = 1000

pub record RequestData : Type 0 where
  pub start_time : ℕ
  pub end_time : ℕ
  pub host_port : Bytes
  pub failed_msg : Bytes

pub record LogData : Type 0 where
  pub wait_send : Bool
  pub id : ℕ
  pub start_time : ℕ
  pub end_time : ℕ
  pub service_send_reply_times : List (Bytes × List RequestData)

-- LogData::reset, and the constructor
abbrev pub empty_log : LogData
empty_log = record {
  wait_send = false;
  id = 0;
  start_time = 0;
  end_time = 0;
  service_send_reply_times = [];
}

-- `next_send` is the local of the sending fiber.
pub record Logger : Type 0 where
  pub logged_call_list : ℕ → LogData
  pub auto_inc_id : ℕ
  pub next_send : ℕ

abbrev pub new_logger : Logger
new_logger = record { logged_call_list = λ i. empty_log; auto_inc_id = 0; next_send = 1 }

abbrev pub write_slot : ℕ → LogData → (ℕ → LogData) → ℕ → LogData
write_slot i l slots j = if i == j then l else slots j

-- logged_call_list_[id % MAX_LOG_NUM]
abbrev pub slot : ℕ → Logger → LogData
slot id c = c.logged_call_list (id % max_log_num)

abbrev pub set_slot : ℕ → LogData → Logger → Logger
set_slot id l c = record c { logged_call_list = write_slot (id % max_log_num) l c.logged_call_list }

-- the change of a record that a member makes, which ignores the call 0
unfoldable pub modify : ℕ → (LogData → LogData) → Logger → Logger
modify id f c = if id == 0 then c else set_slot id (f (slot id c)) c

unfoldable pub start_service_call : ℕ → Logger → Logger × ℕ
start_service_call now c =
    let myid = c.auto_inc_id + 1 in
    let l = slot myid c in
    let c' = record c { auto_inc_id = myid } in
    if l.wait_send || not (l.id == 0)
    then (c', 0)
    else (set_slot myid (record l { start_time = now; id = myid }) c', myid)

abbrev pub end_log : ℕ → LogData → LogData
end_log now l = record l { end_time = now; wait_send = true }

unfoldable pub end_service_call : ℕ → ℕ → Logger → Logger
unfolding modify
end_service_call id now c = modify id (end_log now) c

abbrev pub requests : Bytes → LogData → List RequestData
requests name l = lookup_or name [] l.service_send_reply_times

abbrev pub set_requests : Bytes → List RequestData → LogData → LogData
set_requests name rs l = record l {
  service_send_reply_times = insert name rs l.service_send_reply_times;
}

abbrev pub send_log : Bytes → Bytes → Bytes → ℕ → LogData → LogData
send_log name host port now l =
    set_requests name
      (requests name l
        ++ record {
          start_time = now;
          end_time = 0;
          host_port = host ++ codes ":" ++ port;
          failed_msg = [];
        }
          ∷ [])
      l

unfoldable pub send_service_request : ℕ → Bytes → Bytes → Bytes → ℕ → Logger → Logger
unfolding modify
send_service_request id name host port now c = modify id (send_log name host port now) c

-- .back() of the list of a service, to which the request before has added an entry. Of an empty list,
-- where it is undefined in the code, nothing changes here.
unfoldable pub change_back : (RequestData → RequestData) → List RequestData → List RequestData
change_back f [] = []
change_back f (r ∷ []) = f r ∷ []
change_back f (r ∷ s ∷ rs) = r ∷ change_back f (s ∷ rs)

abbrev pub rsp_log : Bytes → ℕ → LogData → LogData
rsp_log name now l =
    set_requests name (change_back (λ r. record r { end_time = now }) (requests name l)) l

unfoldable pub get_service_rsp : ℕ → Bytes → ℕ → Logger → Logger
unfolding modify
get_service_rsp id name now c = modify id (rsp_log name now) c

abbrev pub failed_log : Bytes → Bytes → LogData → LogData
failed_log name failed_msg l =
    set_requests name (change_back (λ r. record r { failed_msg = failed_msg }) (requests name l)) l

unfoldable pub log_service_failed : ℕ → Bytes → Bytes → Logger → Logger
unfolding modify
log_service_failed id name failed_msg c = modify id (failed_log name failed_msg) c

-- One round of the inner loop of sendLogToDB, when its test holds: the record that goes to the
-- server, unless the sender has fallen behind too much. The difference has no sign in the code,
-- and is beyond the bound when the sender is ahead.
unfoldable pub send_one : Logger → Logger × Option LogData
send_one c = (
  record (set_slot c.next_send empty_log c) { next_send = c.next_send + 1 },
  if leb c.next_send c.auto_inc_id && ltb (c.auto_inc_id - c.next_send) (max_log_num / 2)
      then some (slot c.next_send c)
      else none,
)

abbrev pub keep_point : Option LogData → List LogData → List LogData
keep_point none points = points
keep_point (some l) points = points ++ l ∷ []

abbrev pub keep_count : Option LogData → ℕ → ℕ
keep_count none cnt = cnt
keep_count (some l) cnt = cnt + 1

-- The inner loop, with `cnt` records so far; `none` is for fuel that runs out.
unfoldable pub send_loop : ℕ → ℕ → Logger → List LogData → Option (Logger × List LogData)
send_loop zero cnt c points = none
send_loop (suc fuel) cnt c points =
    let (c', sent) = send_one c in
    let rest = send_loop fuel (keep_count sent cnt) c' (keep_point sent points) in
    if (slot c.next_send c).wait_send && ltb cnt max_log_send_num then rest else some (c, points)
