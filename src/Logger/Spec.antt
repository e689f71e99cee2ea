-- ===== src/Logger/Spec.antt =====
-- The members of FibpLogger.cpp as the steps of a book of calls by number, which knows of no ring.
use fiberproxy.Prelude.{
  ℕ, suc, ◌+◌, ◌%◌, List, [], ◌∷◌, ◌-◌, ◌/◌, leb, ltb, true, not, ◌&&◌, Option, none, some, Bytes,
  ◌≡◌, ◌≢◌, arith, if◌then◌else◌, ◌==◌, ==_iff, Bool-cases, inl, inr, ◌⊎◌, ap,
}
use fiberproxy.Logger.{
  Logger, LogData, empty_log, max_log_num, write_slot, slot, start_service_call, end_log, send_log,
  rsp_log, failed_log, send_one, end_service_call, send_service_request, get_service_rsp,
  log_service_failed,
}
use fiberproxy.Logger.Ring.{Kept}

-- The calls that are open or wait for the sender, the number of the last and of the next to send.
pub record Book : Type 0 where
  pub calls : ℕ → Option LogData
  pub last : ℕ
  pub next : ℕ

pub data Change : Type 0 where
  finish : (now : ℕ) → Change
  request : (name host port : Bytes) (now : ℕ) → Change
  response : (name : Bytes) (now : ℕ) → Change
  failure : (name failed_msg : Bytes) → Change

pub data Op : Type 0 where
  start : (now : ℕ) → Op
  change : (id : ℕ) → Change → Op
  send : Op

abbrev pub apply : Change → LogData → LogData
apply (finish now) l = end_log now l
apply (request name host port now) l = send_log name host port now l
apply (response name now) l = rsp_log name now l
apply (failure name failed_msg) l = failed_log name failed_msg l

abbrev pub run_change : ℕ → Change → Logger → Logger
run_change id (finish now) c = end_service_call id now c
run_change id (request name host port now) c = send_service_request id name host port now c
run_change id (response name now) c = get_service_rsp id name now c
run_change id (failure name failed_msg) c = log_service_failed id name failed_msg c

-- What a member returns: a number, nothing, or what goes to the log server.
pub data Answer : Type 0 where
  given : ℕ → Answer
  done : Answer
  sent : Option LogData → Answer

unfoldable pub run : Op → Logger → Logger × Answer
run (start now) c = let (c', id) = start_service_call now c in (c', given id)
run (change id ch) c = (run_change id ch c, done)
run send c = let (c', l) = send_one c in (c', sent l)

abbrev pub put : ℕ → Option LogData → (ℕ → Option LogData) → ℕ → Option LogData
put id l calls k = if id == k then l else calls k

abbrev pub started : ℕ → ℕ → LogData
started id now = record empty_log { id = id; start_time = now }

-- What each member does to the book, with its answer. A call is refused while one that is a
-- multiple of a million away is in the book; what the sender takes is the call at its slot.
pub data Step (b : Book) : Op → Book → Answer → Type 0 where
  accept :
      (now : ℕ)
      → ((k : ℕ) → k % max_log_num ≡ suc b.last % max_log_num → b.calls k ≡ none)
      → Step b
          (start now)
          (record b {
            calls = put (suc b.last) (some (started (suc b.last) now)) b.calls;
            last = suc b.last;
          })
          (given (suc b.last))
  refuse :
      (now k : ℕ) (l : LogData)
      → k % max_log_num ≡ suc b.last % max_log_num
      → b.calls k ≡ some l
      → Step b (start now) (record b { last = suc b.last }) (given 0)
  nothing : (ch : Change) → Step b (change 0 ch) b done
  update :
      (id : ℕ) (ch : Change) (l : LogData)
      → b.calls id ≡ some l
      → Step b (change id ch) (record b { calls = put id (some (apply ch l)) b.calls }) done
  collect :
      (k : ℕ) (l : LogData)
      → k % max_log_num ≡ b.next % max_log_num
      → b.calls k ≡ some l
      → l.wait_send ≡ true
      → Step b send
          (record b { calls = put k none b.calls; next = b.next + 1 })
          (sent
            (if leb b.next b.last && ltb (b.last - b.next) (max_log_num / 2) then some l else none))

-- How the callers use the members: a change is for the call 0 or one that is in the book, and the
-- sender takes a record that waits.
abbrev pub Allowed : Logger → Op → Type 0
Allowed c (start now) = Unit
Allowed c (change id ch) = (id ≡ 0) ⊎ ((id ≢ 0) × ((slot id c).id ≡ id))
Allowed c send = (slot c.next_send c).wait_send ≡ true

-- A run of the members on the ring, and a run of the book.
pub data Run : Logger → List (Op × Answer) → Logger → Type 0 where
  here : {c : Logger} → Run c [] c
  next :
      {c d : Logger} (op : Op) {ops : List (Op × Answer)}
      → Allowed c op
      → Run (run op c).0 ops d
      → Run c ((op, (run op c).1) ∷ ops) d

pub data Trace : Book → List (Op × Answer) → Book → Type 0 where
  end : {b : Book} → Trace b [] b
  step :
      {b b' d : Book} (op : Op) (a : Answer) {ops : List (Op × Answer)}
      → Step b op b' a
      → Trace b' ops d
      → Trace b ((op, a) ∷ ops) d

-- The call of a number is the record at its slot, when that is its own.
abbrev pub view : (ℕ → LogData) → ℕ → Option LogData
view slots k = let l = slots (k % max_log_num) in if not (k == 0) && l.id == k then some l else none

abbrev pub book : Logger → Book
book c = record { calls = view c.logged_call_list; last = c.auto_inc_id; next = c.next_send }

-- Writing a record at the slot of its own number, over that call's record or an empty slot.
pub view-write :
    (id : ℕ) (l : LogData) (slots : ℕ → LogData)
    → id ≢ 0
    → l.id ≡ id
    → ((slots (id % max_log_num)).id ≡ 0) ⊎ ((slots (id % max_log_num)).id ≡ id)
    → (k : ℕ) → view (write_slot (id % max_log_num) l slots) k ≡ put id (some l) (view slots) k
view-write id l slots nz e o k = elim (Bool-cases (id % max_log_num == k % max_log_num)) [
  | inl same ↦
      ground
        (arith, ap (λ j. (slots j).id) ((==_iff (id % max_log_num) (k % max_log_num)).0 same), e, o)
  | inr other ↦ ground arith
]

pub view-clear :
    (i id : ℕ) (slots : ℕ → LogData)
    → id % max_log_num ≡ i
    → (slots i).id ≡ id
    → (k : ℕ) → view (write_slot i empty_log slots) k ≡ put id none (view slots) k
view-clear i id slots r o k = elim (Bool-cases (i == k % max_log_num)) [
  | inl same ↦ ground (arith, ap (λ j. (slots j).id) ((==_iff i (k % max_log_num)).0 same), o, r)
  | inr other ↦ ground (arith, r)
]

-- A call that is open, or that waits, is the one in the book.
pub view-own :
    (k i : ℕ) (slots : ℕ → LogData)
    → k % max_log_num ≡ i
    → k ≢ 0
    → (slots i).id ≡ k
    → view slots k ≡ some (slots i)
view-own k i slots r nz e = rw r (ground (arith, e))

pub view-free :
    (k i : ℕ) (slots : ℕ → LogData) → k % max_log_num ≡ i → (slots i).id ≡ 0 → view slots k ≡ none
view-free k i slots e f = rw e (ground (arith, f))

pub waiting-id : (i last : ℕ) (l : LogData) → Kept last i l → l.wait_send ≡ true → l.id ≢ 0
waiting-id i last l k w e = cc (ap (λ (m : LogData). m.wait_send) (k.free e), w)
