-- ===== src/Logger/Sender.antt =====
-- The inner loop of sendLogToDB in FibpLogger.cpp: each round empties a slot that waited, so that the
-- loop ends.
use fiberproxy.Prelude.{
  ℕ, zero, suc, ◌+◌, ◌%◌, ◌≤◌, ◌<◌, ltb, Bool, true, false, ◌&&◌, Option, none, some, List, [], ◌∷◌,
  ◌≡◌, refl, arith, if◌then◌else◌, ◌==◌, Bool-cases, inl, inr, ◌⊎◌, length, length-append,
}
use fiberproxy.Logger.{
  Logger, LogData, empty_log, max_log_num, max_log_send_num, write_slot, slot, send_one, send_loop,
  keep_point, keep_count,
}

-- How many of the first `n` slots wait for the sender.
unfoldable waiting : ℕ → (ℕ → LogData) → ℕ
waiting zero slots = 0
waiting (suc n) slots = (if (slots n).wait_send then 1 else 0) + waiting n slots

waiting-le : (n : ℕ) (slots : ℕ → LogData) → waiting n slots ≤ n
unfolding waiting
waiting-le zero slots = omega arith
waiting-le (suc n) slots = ground (arith, waiting-le n slots)

waiting-beyond :
    (n i : ℕ) (slots : ℕ → LogData)
    → n ≤ i
    → waiting n (write_slot i empty_log slots) ≡ waiting n slots
unfolding waiting
waiting-beyond zero i slots h = refl
waiting-beyond (suc n) i slots h = ground (arith, waiting-beyond n i slots)

waiting-clear :
    (n i : ℕ) (slots : ℕ → LogData)
    → i < n
    → (slots i).wait_send ≡ true
    → suc (waiting n (write_slot i empty_log slots)) ≡ waiting n slots
unfolding waiting
waiting-clear zero i slots h w = elim h [ ]
waiting-clear (suc n) i slots h w = elim (Bool-cases (i == n)) [
  | inl e ↦ ground (arith, waiting-beyond n i slots, w)
  | inr e ↦ ground (arith, waiting-clear n i slots, w)
]

abbrev all_waiting : Logger → ℕ
all_waiting c = waiting max_log_num c.logged_call_list

length-keep_point :
    (o : Option LogData) (points : List LogData)
    → length (keep_point o points) ≡ keep_count o (length points)
length-keep_point none points = refl
length-keep_point (some l) points = length-append points (l ∷ [])

-- How the loop ends: with a slot that does not wait, or a thousand records.
pub record Stopped (d : Logger) (points : List LogData) : Type 0 where
  pub few : length points ≤ max_log_send_num
  pub why : ((slot d.next_send d).wait_send ≡ false) ⊎ (length points ≡ max_log_send_num)

send_one-waiting :
    (c : Logger)
    → (slot c.next_send c).wait_send ≡ true
    → suc (all_waiting (send_one c).0) ≡ all_waiting c
unfolding send_one
send_one-waiting c w =
    waiting-clear max_log_num (c.next_send % max_log_num) c.logged_call_list (omega arith) w

abbrev goes_on : ℕ → Logger → Bool
goes_on cnt c = (slot c.next_send c).wait_send && ltb cnt max_log_send_num

send_loop-stop :
    (fuel cnt : ℕ) (c : Logger) (points : List LogData)
    → goes_on cnt c ≡ false
    → send_loop (suc fuel) cnt c points ≡ some (c, points)
unfolding send_loop
send_loop-stop fuel cnt c points e = simp e

send_loop-go :
    (fuel cnt : ℕ) (c : Logger) (points : List LogData)
    → goes_on cnt c ≡ true
    → send_loop (suc fuel) cnt c points
      ≡ send_loop fuel
          (keep_count (send_one c).1 cnt)
          (send_one c).0
          (keep_point (send_one c).1 points)
unfolding send_loop
send_loop-go fuel cnt c points e = simp e

goes_on-waits :
    (cnt : ℕ) (c : Logger)
    → goes_on cnt c ≡ true
    → ((slot c.next_send c).wait_send ≡ true) × (cnt < max_log_send_num)
goes_on-waits cnt c g = ground (arith, g)

keep_count-le : (o : Option LogData) (cnt m : ℕ) → cnt < m → keep_count o cnt ≤ m
keep_count-le none cnt m h = omega arith
keep_count-le (some l) cnt m h = omega arith

Stopped-goes_on :
    (c : Logger) (points : List LogData)
    → goes_on (length points) c ≡ false
    → length points ≤ max_log_send_num
    → Stopped c points
Stopped-goes_on c points g b = record { few = b; why = ground (arith, g) }

send_loop-ends_with :
    (fuel cnt : ℕ) (c : Logger) (points : List LogData)
    → all_waiting c < fuel
    → cnt ≡ length points
    → cnt ≤ max_log_send_num
    → (d : Logger) × (sent : List LogData) × (send_loop fuel cnt c points ≡ some (d, sent))
      × Stopped d sent
send_loop-ends_with zero cnt c points h e b = elim h [ ]
send_loop-ends_with (suc fuel) cnt c points h e b = elim (Bool-cases (goes_on cnt c)) [
  | inl g ↦ rw (send_loop-go fuel cnt c points g) (
      send_loop-ends_with fuel (keep_count (send_one c).1 cnt) (send_one c).0
        (keep_point (send_one c).1 points)
        (omega (arith, h, send_one-waiting c (goes_on-waits cnt c g).0))
        (rw (length-keep_point, e) refl)
        (keep_count-le (send_one c).1 cnt max_log_send_num (goes_on-waits cnt c g).1))
  | inr g ↦ (
    c,
    points,
    send_loop-stop fuel cnt c points g,
    Stopped-goes_on c points (rw e at g) (omega (arith, b, e)),
  )
]

-- The inner loop of the sender ends, whatever the ring holds, within a round for each slot: it
-- stops at a slot that does not wait or behind a thousand records, and never has more.
pub send_loop-ends :
    (c : Logger)
    → (d : Logger) × (sent : List LogData) × (send_loop (suc max_log_num) 0 c [] ≡ some (d, sent))
      × Stopped d sent
send_loop-ends c =
    send_loop-ends_with (suc max_log_num) 0 c []
      (omega (arith, waiting-le max_log_num c.logged_call_list)) refl (omega arith)
