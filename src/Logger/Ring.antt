-- ===== src/Logger/Ring.antt =====
-- What the ring of FibpLogger.cpp stores at each slot, and that each member keeps it.
use fiberproxy.Prelude.{
  ℕ, ◌+◌, ◌%◌, ◌≤◌, ◌<◌, Bool, true, false, not, ◌≡◌, refl, ◌≢◌, arith, if◌then◌else◌, ◌==◌, ==_iff,
  Bool-cases, inl, inr, subst, sym, ◌∙◌, ◌||◌,
}
use fiberproxy.Logger.{
  Logger, LogData, empty_log, new_logger, max_log_num, slot, set_slot, modify, start_service_call,
  send_one,
}

-- A slot is empty, or holds the record of a call of its own residue that was handed out.
pub record Kept (last i : ℕ) (l : LogData) : Type 0 where
  pub free : l.id ≡ 0 → l ≡ empty_log
  pub own : l.id ≢ 0 → l.id % max_log_num ≡ i
  pub given : l.id ≤ last

pub record IsValid (c : Logger) : Type 0 where
  pub kept : (i : ℕ) → i < max_log_num → Kept c.auto_inc_id i (c.logged_call_list i)

pub empty_log-Kept : (last i : ℕ) → Kept last i empty_log
empty_log-Kept last i = record { free = λ e. refl; own = λ h. absurd (h refl); given = omega arith }

pub new_logger-IsValid : IsValid new_logger
new_logger-IsValid = record { kept = λ i h. empty_log-Kept 0 i }

Kept-le : {m n i : ℕ} {l : LogData} → m ≤ n → Kept m i l → Kept n i l
Kept-le h k = record { free = k.free; own = k.own; given = omega (arith, k.given) }

Kept-if :
    {last i : ℕ} {l m : LogData} (b : Bool)
    → (b ≡ true → Kept last i l)
    → Kept last i m
    → Kept last i (if b then l else m)
Kept-if true p q = p refl
Kept-if false p q = q

set_slot-IsValid :
    (id : ℕ) (l : LogData) (c : Logger)
    → IsValid c
    → Kept c.auto_inc_id (id % max_log_num) l
    → IsValid (set_slot id l c)
set_slot-IsValid id l c v k = record {
  kept = λ i h.
      Kept-if (id % max_log_num == i)
        (λ e. subst (λ j. Kept c.auto_inc_id j l) ((==_iff (id % max_log_num) i).0 e) k)
        (v.kept i h);
}

slot_lt : (id : ℕ) → id % max_log_num < max_log_num
slot_lt id = omega arith

-- A member's change keeps the number of the call.
pub modify-IsValid :
    (id : ℕ) (f : LogData → LogData) (c : Logger)
    → ((l : LogData) → (f l).id ≡ l.id)
    → (slot id c).id ≢ 0
    → IsValid c
    → IsValid (modify id f c)
unfolding modify
modify-IsValid id f c keeps used v = elim (Bool-cases (id == 0)) [
  | inl e ↦ rw e v
  | inr e ↦ rw e (
      set_slot-IsValid id (f (slot id c)) c v (record {
        free = λ z. absurd (used (sym (keeps (slot id c)) ∙ z));
        own = λ z. rw keeps (k.own used);
        given = rw keeps k.given;
      }))
]
  where
    k : Kept c.auto_inc_id (id % max_log_num) (slot id c)
    k = v.kept (id % max_log_num) (slot_lt id)

pub send_one-IsValid : (c : Logger) → IsValid c → IsValid (send_one c).0
unfolding send_one
send_one-IsValid c v = record { kept = w.kept }
  where
    w : IsValid (set_slot c.next_send empty_log c)
    w = set_slot-IsValid c.next_send empty_log c v (empty_log-Kept c.auto_inc_id _)

pub start_service_call-IsValid :
    (now : ℕ) (c : Logger) → IsValid c → IsValid (start_service_call now c).0
unfolding start_service_call
start_service_call-IsValid now c v = go (l.wait_send || not (l.id == 0))
  where
    myid : ℕ
    myid = c.auto_inc_id + 1

    l : LogData
    l = slot myid c

    c' : Logger
    c' = record c { auto_inc_id = myid }

    v' : IsValid c'
    v' = record { kept = λ i h. Kept-le (omega arith) (v.kept i h) }

    go :
        (b : Bool)
        → let r : Logger × ℕ =
            if b
            then (c', 0)
            else (set_slot myid (record l { start_time = now; id = myid }) c', myid) in
          IsValid r.0
    go true = v'
    go false =
        set_slot-IsValid myid (record l { start_time = now; id = myid }) c' v'
          (record { free = λ z. absurd (omega (arith, z)); own = λ z. refl; given = omega arith })
