-- ===== src/Logger/Blocked.antt =====
-- The sender of FibpLogger.cpp never passes a call that nobody ends.
use fiberproxy.Prelude.{
  ℕ, suc, ◌%◌, ◌≤◌, false, List, [], ◌∷◌, ◌≡◌, refl, ◌≢◌, arith, ◌==◌, Bool-cases, inl, inr, subst,
  sym, ap, ◌∙◌, ==_iff,
}
use fiberproxy.Logger.{
  Logger, LogData, empty_log, max_log_num, slot, set_slot, start_service_call, send_one,
}
use fiberproxy.Logger.Spec.{
  Op, start, change, send, Change, finish, request, response, failure, apply, run_change, Answer,
  run, Allowed, Run, here, next,
}
use fiberproxy.Logger.Refine.{
  run_change-modify, modify-zero, modify-set_slot, apply-id, taken, counted, start-taken,
  start-free, free-id,
}

-- The call is in its slot and has not ended, and the sender is not past it.
pub record IsOpen (n : ℕ) (c : Logger) : Type 0 where
  pub before : c.next_send ≤ n
  pub own : (slot n c).id ≡ n
  pub running : (slot n c).wait_send ≡ false

-- No member of the run ends the call.
abbrev pub NotEnded : ℕ → List (Op × Answer) → Type 0
NotEnded n [] = Unit
NotEnded n ((change id (finish now), a) ∷ ops) = (id ≢ n) × NotEnded n ops
NotEnded n ((op, a) ∷ ops) = NotEnded n ops

abbrev Spares : ℕ → Op → Type 0
Spares n (change id (finish now)) = id ≢ n
Spares n op = Unit

apply-wait_send :
    (id : ℕ) (ch : Change) (l : LogData)
    → Spares id (change id ch)
    → (apply ch l).wait_send ≡ l.wait_send
apply-wait_send id (finish now) l s = absurd (s refl)
apply-wait_send id (request name host port now) l s = refl
apply-wait_send id (response name now) l s = refl
apply-wait_send id (failure name failed_msg) l s = refl

-- A write to a slot keeps the call when its slot is another, or the record stays the call's.
set_slot-IsOpen :
    (n id : ℕ) (l : LogData) (c : Logger)
    → IsOpen n c
    → (id % max_log_num ≡ n % max_log_num → (l.id ≡ n) × (l.wait_send ≡ false))
    → IsOpen n (set_slot id l c)
set_slot-IsOpen n id l c o k = elim (Bool-cases (id % max_log_num == n % max_log_num)) [
  | inl e ↦ record {
    before = o.before;
    own = ground (arith, k ((==_iff _ _).0 e), e);
    running = ground (arith, k ((==_iff _ _).0 e), e);
  }
  | inr e ↦ record {
    before = o.before;
    own = ground (arith, o.own, e);
    running = ground (arith, o.running, e);
  }
]

start-IsOpen : (n now : ℕ) (c : Logger) → n ≢ 0 → IsOpen n c → IsOpen n (start_service_call now c).0
start-IsOpen n now c nz o = elim (Bool-cases (taken c)) [
  | inl e ↦ rw (start-taken now c e) kept
  | inr e ↦ rw (start-free now c e) (
      set_slot-IsOpen n (suc c.auto_inc_id) _ (counted c) kept (λ same.
        absurd (nz (sym o.own ∙ sym (ap (λ i. (c.logged_call_list i).id) same) ∙ free-id c e))))
]
  where
    kept : IsOpen n (counted c)
    kept = record { before = o.before; own = o.own; running = o.running }

change-IsOpen :
    (n id : ℕ) (ch : Change) (c : Logger)
    → Allowed c (change id ch)
    → Spares n (change id ch)
    → IsOpen n c
    → IsOpen n (run_change id ch c)
change-IsOpen n id ch c (inl z) s o = rw (run_change-modify, z, modify-zero) o
change-IsOpen n id ch c (inr (nz, e)) s o =
    rw (run_change-modify, modify-set_slot id (apply ch) c nz)
      (set_slot-IsOpen n id (apply ch (slot id c)) c o (λ same. (
        apply-id ch (slot id c) ∙ e ∙ sym (number same),
        apply-wait_send id ch (slot id c) (subst (λ m. Spares m (change id ch)) (number same) s)
            ∙ ap (λ i. (c.logged_call_list i).wait_send) same
            ∙ o.running,
      )))
  where
    number : id % max_log_num ≡ n % max_log_num → n ≡ id
    number same = sym o.own ∙ sym (ap (λ i. (c.logged_call_list i).id) same) ∙ e

send-IsOpen : (n : ℕ) (c : Logger) → Allowed c send → IsOpen n c → IsOpen n (send_one c).0
unfolding send_one
send-IsOpen n c w o = record {
  before = omega (arith, o.before, apart);
  own = kept.own;
  running = kept.running;
}
  where
    other : c.next_send % max_log_num ≢ n % max_log_num
    other same = cc (w, ap (λ i. (c.logged_call_list i).wait_send) same, o.running)

    apart : c.next_send ≢ n
    apart e = other (ap (λ i. i % max_log_num) e)

    kept : IsOpen n (set_slot c.next_send empty_log c)
    kept = set_slot-IsOpen n c.next_send empty_log c o (λ same. absurd (other same))

NotEnded-step :
    (n : ℕ) (op : Op) (a : Answer) (ops : List (Op × Answer))
    → NotEnded n ((op, a) ∷ ops)
    → Spares n op × NotEnded n ops
NotEnded-step n (start now) a ops h = (tt, h)
NotEnded-step n (change id (finish now)) a ops h = h
NotEnded-step n (change id (request name host port now)) a ops h = (tt, h)
NotEnded-step n (change id (response name now)) a ops h = (tt, h)
NotEnded-step n (change id (failure name failed_msg)) a ops h = (tt, h)
NotEnded-step n send a ops h = (tt, h)

run-IsOpen :
    (n : ℕ) (op : Op) (c : Logger)
    → n ≢ 0
    → Allowed c op
    → Spares n op
    → IsOpen n c
    → IsOpen n (run op c).0
unfolding run
run-IsOpen n (start now) c nz a s o = start-IsOpen n now c nz o
run-IsOpen n (change id ch) c nz a s o = change-IsOpen n id ch c a s o
run-IsOpen n send c nz a s o = send-IsOpen n c a o

-- A call that is open in its slot, and that the sender is not past, stays so whatever the members
-- do, as long as nobody ends it: no other call takes its slot, and the sender never passes it.
pub Run-IsOpen :
    (n : ℕ) {c d : Logger} {ops : List (Op × Answer)}
    → n ≢ 0
    → IsOpen n c
    → Run c ops d
    → NotEnded n ops
    → IsOpen n d
Run-IsOpen n nz o here h = o
Run-IsOpen n {c} nz o (next op a r) h =
    let (s, rest) = NotEnded-step n op _ _ h in Run-IsOpen n nz (run-IsOpen n op c nz a s o) r rest
