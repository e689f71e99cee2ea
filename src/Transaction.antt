-- ===== src/Transaction.antt =====
-- source/core/forward-manager/FibpTransactionMgr.cpp.
use fiberproxy.Prelude.{
  ℕ, ◌+◌, ◌-◌, Bool, true, false, ◌&&◌, [], ◌∷◌, ◌++◌, Option, none, some, Bytes, codes,
  if◌then◌else◌, ◌==◌, leb, length, take, drop,
}
use fiberproxy.Types.{LogCall, log_transaction, http_post}
use fiberproxy.Remote.{Remote}

unfoldable pub is_prefix : Bytes → Bytes → Bool
is_prefix [] s = true
is_prefix (p ∷ ps) [] = false
is_prefix (p ∷ ps) (c ∷ s) = p == c && is_prefix ps s

-- the first place at or behind the head of `s` where `pat` stands; `i` is the head's index
unfoldable pub find_list : Bytes → Bytes → ℕ → Option ℕ
unfolding is_prefix
find_list pat [] i = if is_prefix pat [] then some i else none
find_list pat (c ∷ s) i = if is_prefix pat (c ∷ s) then some i else find_list pat s (i + 1)

-- std::string::find(pat, pos)
unfoldable pub find : Bytes → Bytes → ℕ → Option ℕ
unfolding find_list
find s pat pos = if leb pos (length s) then find_list pat (drop pos s) pos else none

-- std::string::find(const char* pat, pos, n) searches for the `n` bytes that stand at `pat`; it
-- does not stop at a NUL. `at_pat` is the memory from `pat` on.
unfoldable pub find_n : Bytes → Bytes → ℕ → ℕ → Option ℕ
unfolding find
find_n s at_pat pos n = find s (take n at_pat) pos

abbrev pub tran_key : Bytes
tran_key = codes "\"transaction_id\""

-- A quote literal and the memory behind its NUL.
abbrev pub quote_at : Bytes → Bytes
quote_at behind = b'"' ∷ 0 ∷ behind

-- `behind₁` and `behind₂` are the bytes that the two calls of `find` read past the literal "\"".
unfoldable pub get_transaction_id : Bytes → Bytes → Bytes → Bytes
get_transaction_id behind₁ behind₂ service_rps = elim (find service_rps tran_key 0) [
  | none ↦ []
  | some pos ↦ elim (find_n service_rps (quote_at behind₁) (pos + length tran_key) 10) [
    | none ↦ []
    | some id_start ↦ elim (find_n service_rps (quote_at behind₂) (id_start + 1) 128) [
      | none ↦ []
      | some id_end ↦ take (id_end - id_start - 1) (drop (id_start + 1) service_rps)
    ]
  ]
]

module _ {W H : Type 0} (remote : Remote W H) where
  open remote use {send_http, get_response}

  -- get_response of FibpClientMgr, and the log call for its result
  unfoldable pub after_send : Bytes → Bytes → Bytes → Option H × W → LogCall × W
  after_send api action tran_id (none, w) =
      (log_transaction false api action tran_id (codes "Send Failed."), w)
  after_send api action tran_id (some client, w) =
      let (ret, rsp, can_retry, w') = get_response client w in
      (log_transaction ret api action tran_id rsp, w')

  unfoldable pub send_transaction_api : Bytes → Bytes → Bytes → Bytes → Bytes → W → LogCall × W
  send_transaction_api host port api tran_id tran_action w =
      let postdata : Bytes =
        codes "{" ++ tran_key ++ codes ":" ++ codes "\"" ++ tran_id ++ codes "\"" ++ codes "}" in
      after_send api tran_action tran_id
        (send_http (api ++ tran_action) http_post host port postdata 10000 w)

  unfoldable pub confirm : Bytes → Bytes → Bytes → Bytes → W → LogCall × W
  unfolding send_transaction_api
  confirm host port api tran_id = send_transaction_api host port api tran_id (codes "/confirm")

  unfoldable pub cancel : Bytes → Bytes → Bytes → Bytes → W → LogCall × W
  unfolding send_transaction_api
  cancel host port api tran_id = send_transaction_api host port api tran_id (codes "/cancel")
