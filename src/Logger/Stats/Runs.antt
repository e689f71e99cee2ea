-- ===== src/Logger/Stats/Runs.antt =====
-- sendLogToDB in FibpLogger.cpp: the statistics of a service against a reference, the maximal runs of
-- its requests that start in one second.
use fiberproxy.Prelude.{
  true, false, List, [], ◌∷◌, ◌++◌, append_assoc, Bytes, ◌≡◌, refl, arith, if◌then◌else◌, ◌==◌,
  Bool-cases, inl, inr, bytes_key, bytes_eq,
}
use fiberproxy.Logger.{LogData, RequestData}
use fiberproxy.Logger.Stats.{second}

-- the entries of one name, in their order
unfoldable pub of_name : {V : Type 0} → Bytes → List (Bytes × V) → List V
of_name name [] = []
of_name name ((n, v) ∷ m) = if bytes_eq n name then v ∷ of_name name m else of_name name m

-- The requests of the records, each with its service.
unfoldable pub service_requests : Bytes → List RequestData → List (Bytes × RequestData)
service_requests name [] = []
service_requests name (r ∷ rs) = (name, r) ∷ service_requests name rs

unfoldable pub record_requests : List (Bytes × List RequestData) → List (Bytes × RequestData)
unfolding service_requests
record_requests [] = []
record_requests ((name, rs) ∷ services) = service_requests name rs ++ record_requests services

unfoldable pub all_requests : List LogData → List (Bytes × RequestData)
unfolding record_requests
all_requests [] = []
all_requests (l ∷ ls) = record_requests l.service_send_reply_times ++ all_requests ls

-- A run has at least one request.
abbrev pub Group : Type 0
Group = RequestData × List RequestData

-- Puts a run before others, and joins it to the first of them when both are of one second.
unfoldable pub attach : Group → List Group → List Group
attach (r, rs) [] = (r, rs) ∷ []
attach (r, rs) ((s, ss) ∷ gs) =
    if second s == second r then (r, rs ++ s ∷ ss) ∷ gs else (r, rs) ∷ (s, ss) ∷ gs

-- The maximal runs of requests of one second.
unfoldable pub runs : List RequestData → List Group
unfolding attach
runs [] = []
runs (r ∷ rs) = attach (r, []) (runs rs)

pub attach-same :
    (r s : RequestData) (rs : List RequestData) (gs : List Group)
    → (second s == second r) ≡ true
    → attach (r, rs) (attach (s, []) gs) ≡ attach (r, rs ++ s ∷ []) gs
unfolding attach
attach-same r s rs [] e = rw e refl
attach-same r s rs ((t, ts) ∷ gs) e = elim (Bool-cases (second t == second s)) [
  | inl q ↦ ground (arith, append_assoc rs (s ∷ []) (t ∷ ts))
  | inr q ↦ ground arith
]

pub attach-other :
    (r s : RequestData) (rs : List RequestData) (gs : List Group)
    → (second s == second r) ≡ false
    → attach (r, rs) (attach (s, []) gs) ≡ (r, rs) ∷ attach (s, []) gs
unfolding attach
attach-other r s rs [] e = rw e refl
attach-other r s rs ((t, ts) ∷ gs) e = ground arith
