-- ===== src/Logger/Refine.antt =====
-- The ring of FibpLogger.cpp implements the book of calls.
use std.Path.{fun_ext}
use fiberproxy.Prelude.{
  ℕ, suc, ◌%◌, Bool, true, false, not, ◌||◌, Option, some, List, ◌≡◌, refl, ◌≢◌, arith, ◌==◌,
  Bool-cases, inl, inr, subst, sym, ◌∙◌,
}
use fiberproxy.Logger.{
  Logger, LogData, empty_log, new_logger, max_log_num, slot, set_slot, modify, start_service_call,
  end_service_call, send_service_request, get_service_rsp, log_service_failed, send_one,
}
use fiberproxy.Logger.Ring.{
  Kept, IsValid, modify-IsValid, send_one-IsValid, start_service_call-IsValid, new_logger-IsValid,
}
use fiberproxy.Logger.Spec.{
  Book, Op, start, change, send, Change, finish, request, response, failure, apply, run_change,
  Answer, given, done, sent, run, put, started, Step, accept, refuse, nothing, update, collect,
  Allowed, Run, here, next, Trace, end, step, view, book, view-write, view-clear, view-own,
  view-free, waiting-id,
}

pub apply-id : (ch : Change) (l : LogData) → (apply ch l).id ≡ l.id
apply-id (finish now) l = refl
apply-id (request name host port now) l = refl
apply-id (response name now) l = refl
apply-id (failure name failed_msg) l = refl

pub run_change-modify :
    (id : ℕ) (ch : Change) (c : Logger) → run_change id ch c ≡ modify id (apply ch) c
unfolding end_service_call send_service_request get_service_rsp log_service_failed
run_change-modify id (finish now) c = refl
run_change-modify id (request name host port now) c = refl
run_change-modify id (response name now) c = refl
run_change-modify id (failure name failed_msg) c = refl

-- A step to the calls that the ring shows is a step to the calls that the book names.
Step-calls :
    {b : Book} {op : Op} {calls calls' : ℕ → Option LogData} {last next : ℕ} {a : Answer}
    → ((k : ℕ) → calls' k ≡ calls k)
    → Step b op (record { calls = calls; last = last; next = next }) a
    → Step b op (record { calls = calls'; last = last; next = next }) a
Step-calls {b} {op} {calls} {calls'} {last} {next} {a} e s =
    subst (λ (m : ℕ → Option LogData). Step b op (record { calls = m; last = last; next = next }) a)
      (fun_ext (λ k. sym (e k))) s

pub modify-set_slot :
    (id : ℕ) (f : LogData → LogData) (c : Logger)
    → id ≢ 0
    → modify id f c ≡ set_slot id (f (slot id c)) c
unfolding modify
modify-set_slot id f c nz = ground (arith, nz)

pub modify-zero : (f : LogData → LogData) (c : Logger) → modify 0 f c ≡ c
unfolding modify
modify-zero f c = refl

run_change-refines :
    (id : ℕ) (ch : Change) (c : Logger)
    → Allowed c (change id ch)
    → Step (book c) (change id ch) (book (run_change id ch c)) done
run_change-refines id ch c (inl z) = rw (run_change-modify, z, modify-zero) (nothing ch)
run_change-refines id ch c (inr (nz, e)) =
    rw (run_change-modify, modify-set_slot id (apply ch) c nz)
      (Step-calls
        (view-write id (apply ch (slot id c)) c.logged_call_list nz (apply-id ch (slot id c) ∙ e)
          (inr e))
        (update id ch (slot id c) (view-own id (id % max_log_num) c.logged_call_list refl nz e)))

abbrev pub taken : Logger → Bool
taken c = (slot (suc c.auto_inc_id) c).wait_send || not ((slot (suc c.auto_inc_id) c).id == 0)

abbrev pub counted : Logger → Logger
counted c = record c { auto_inc_id = suc c.auto_inc_id }

pub start-taken :
    (now : ℕ) (c : Logger) → taken c ≡ true → start_service_call now c ≡ (counted c, 0)
unfolding start_service_call
start-taken now c e = ground (arith, e)

pub start-free :
    (now : ℕ) (c : Logger)
    → taken c ≡ false
    → start_service_call now c ≡ (
      set_slot
          (suc c.auto_inc_id)
          (record (slot (suc c.auto_inc_id) c) { start_time = now; id = suc c.auto_inc_id })
          (counted c),
      suc c.auto_inc_id,
    )
unfolding start_service_call
start-free now c e = ground (arith, e)

taken-id : (c : Logger) → IsValid c → taken c ≡ true → (slot (suc c.auto_inc_id) c).id ≢ 0
taken-id c v e z = elim (Bool-cases (slot (suc c.auto_inc_id) c).wait_send) [
  | inl w ↦
      waiting-id _ c.auto_inc_id _ (v.kept (suc c.auto_inc_id % max_log_num) (omega arith)) w z
  | inr w ↦ absurd (ground (arith, w, z, e))
]

pub free-id : (c : Logger) → taken c ≡ false → (slot (suc c.auto_inc_id) c).id ≡ 0
free-id c e = ground (arith, e)

start-refines :
    (now : ℕ) (c : Logger)
    → IsValid c
    → Step
        (book c)
        (start now)
        (book (start_service_call now c).0)
        (given (start_service_call now c).1)
start-refines now c v = elim (Bool-cases (taken c)) [
  | inl e ↦ rw (start-taken now c e) (held e)
  | inr e ↦ rw (start-free now c e) (
      Step-calls
        (view-write id (record l { start_time = now; id = id }) c.logged_call_list (omega arith)
          refl (inl (free-id c e)))
        (fresh (k.free (free-id c e)) (
          accept now
            (λ j same. view-free j (id % max_log_num) c.logged_call_list same (free-id c e)))))
]
  where
    id : ℕ
    id = suc c.auto_inc_id

    l : LogData
    l = slot id c

    k : Kept c.auto_inc_id (id % max_log_num) l
    k = v.kept (id % max_log_num) (omega arith)

    held : taken c ≡ true → Step (book c) (start now) (book (counted c)) (given 0)
    held e = refuse now l.id l (k.own (taken-id c v e)) (
        view-own l.id (id % max_log_num) c.logged_call_list (k.own (taken-id c v e))
          (taken-id c v e) refl)

    fresh :
        l ≡ empty_log
        → Step
            (book c)
            (start now)
            (record {
              calls = put id (some (started id now)) (view c.logged_call_list);
              last = id;
              next = c.next_send;
            })
            (given id)
        → Step
            (book c)
            (start now)
            (record {
              calls =
                  put id (some (record l { start_time = now; id = id })) (view c.logged_call_list);
              last = id;
              next = c.next_send;
            })
            (given id)
    fresh e s = rw e s

send-refines :
    (c : Logger)
    → IsValid c
    → Allowed c send
    → Step (book c) send (book (send_one c).0) (sent (send_one c).1)
unfolding send_one
send-refines c v w =
    Step-calls (view-clear (c.next_send % max_log_num) l.id c.logged_call_list (k.own nz) refl) (
      collect l.id l (k.own nz)
        (view-own l.id (c.next_send % max_log_num) c.logged_call_list (k.own nz) nz refl) w)
  where
    l : LogData
    l = slot c.next_send c

    k : Kept c.auto_inc_id (c.next_send % max_log_num) l
    k = v.kept (c.next_send % max_log_num) (omega arith)

    nz : l.id ≢ 0
    nz = waiting-id _ _ l k w

run-refines :
    (op : Op) (c : Logger)
    → IsValid c
    → Allowed c op
    → Step (book c) op (book (run op c).0) (run op c).1
unfolding run
run-refines (start now) c v a = start-refines now c v
run-refines (change id ch) c v a = run_change-refines id ch c a
run-refines send c v a = send-refines c v a

run-IsValid : (op : Op) (c : Logger) → IsValid c → Allowed c op → IsValid (run op c).0
unfolding run
run-IsValid (start now) c v a = start_service_call-IsValid now c v
run-IsValid (change id ch) c v (inl z) = rw (run_change-modify, z, modify-zero) v
run-IsValid (change id ch) c v (inr (nz, e)) =
    rw run_change-modify (modify-IsValid id (apply ch) c (apply-id ch) (λ z. nz (sym e ∙ z)) v)
run-IsValid send c v a = send_one-IsValid c v

Run-refines :
    {c d : Logger} {ops : List (Op × Answer)}
    → IsValid c
    → Run c ops d
    → Trace (book c) ops (book d) × IsValid d
Run-refines v here = (end, v)
Run-refines {c} v (next op a r) =
    let (t, w) = Run-refines (run-IsValid op c v a) r in
    (step op (run op c).1 (run-refines op c v a) t, w)

-- However the members of a new logger are called, with changes only to calls that are in it and the
-- sender taking only records that wait: what they return and the calls that the ring shows are a
-- run of the book of calls, which knows of no ring, and each slot is empty or holds the record of a
-- call of its own residue.
pub Logger-refines :
    {d : Logger} {ops : List (Op × Answer)}
    → Run new_logger ops d
    → Trace (book new_logger) ops (book d) × IsValid d
Logger-refines r = Run-refines new_logger-IsValid r
