-- ===== src/Http/Client.antt =====
-- source/core/forward-manager/FibpClient.cpp, FibpHttpClient: the request for a path, and what is
-- made of a response.
use fiberproxy.Prelude.{
  ℕ, Bool, true, false, not, ◌||◌, ◌&&◌, [], ◌∷◌, ◌++◌, Bytes, codes, ◌≡◌, refl, subst, ap, sym,
  if◌then◌else◌, ◌==◌, ==_iff, Bool-cases, inl, inr, ◌⊎◌,
}
use fiberproxy.Http.{Request, Response, target}

-- path.find("?") with the two calls of substr: what is in front of the first question mark and,
-- if there is one, what is behind it
unfoldable pub split_path : Bytes → Bytes × Bytes
split_path [] = ([], [])
split_path (c ∷ s) =
    let (path, query) = split_path s in if c == b'?' then ([], s) else (c ∷ path, query)

-- the request that FibpHttpClient::send_request makes, before the header "Host" is added
unfoldable pub make_request : Bytes → Bytes → Bytes → Request
make_request path method reqdata =
    let (path_without_query, query) = split_path path in
    record {
      http_major = 1;
      http_minor = 1;
      method = method;
      path = path_without_query;
      query = query;
      headers = [];
      keep_alive = true;
      body = reqdata;
    }

target-cons :
    (c : ℕ) (path query s : Bytes)
    → ((target path query ≡ s) ⊎ (target path query ++ codes "?" ≡ s))
    → ((target (c ∷ path) query ≡ c ∷ s) ⊎ (target (c ∷ path) query ++ codes "?" ≡ c ∷ s))
unfolding target
target-cons c path [] s (inl e) = inl (ap (λ l. c ∷ l) e)
target-cons c path [] s (inr e) = inr (ap (λ l. c ∷ l) e)
target-cons c path (q ∷ qs) s (inl e) = inl (ap (λ l. c ∷ l) e)
target-cons c path (q ∷ qs) s (inr e) = inr (ap (λ l. c ∷ l) e)

target-mark : (s : Bytes) → (target [] s ≡ b'?' ∷ s) ⊎ (target [] s ++ codes "?" ≡ b'?' ∷ s)
unfolding target
target-mark [] = inr refl
target-mark (q ∷ qs) = inl refl

target-split :
    (p : Bytes)
    → let (path, query) = split_path p in
      (target path query ≡ p) ⊎ (target path query ++ codes "?" ≡ p)
unfolding split_path target
target-split [] = inl refl
target-split (c ∷ s) = elim (Bool-cases (c == b'?')) [
  | inl mark ↦ rw mark (
      subst (λ d. (target [] s ≡ d ∷ s) ⊎ (target [] s ++ codes "?" ≡ d ∷ s))
        (sym ((==_iff c b'?').0 mark)) (target-mark s))
  | inr other ↦ rw other (target-cons c _ _ s (target-split s))
]

-- The path that a caller gives goes into the request as it is, up to a question mark at its end,
-- which is dropped.
pub make_request-target :
    (path method reqdata : Bytes)
    → let req = make_request path method reqdata in
      (target req.path req.query ≡ path) ⊎ (target req.path req.query ++ codes "?" ≡ path)
unfolding make_request
make_request-target path method reqdata = target-split path

abbrev pub timeout_text : Bytes
timeout_text = codes "Server Timed Out."

-- What an exchange leaves in the client: whether the session is open, and whether a retry may help.
pub record Exchange : Type 0 where
  pub success : Bool
  pub rsp : Bytes
  pub can_retry : Bool
  pub closed : Bool

-- FibpHttpClient::get_response behind parse_response, which has returned `ret` with the response
-- and one of no error, eof, operation_aborted or another.
pub data ReadError : Type 0 where
  no_error eof operation_aborted other_error : ReadError

abbrev pub is_aborted : ReadError → Bool
is_aborted operation_aborted = true
is_aborted no_error = false
is_aborted eof = false
is_aborted other_error = false

abbrev pub is_eof : ReadError → Bool
is_eof eof = true
is_eof no_error = false
is_eof operation_aborted = false
is_eof other_error = false

unfoldable pub get_response : Bool → Response → ReadError → Exchange
get_response ret next_rsp ec =
    let closed = not next_rsp.keep_alive || is_eof ec || is_aborted ec in
    if ret && next_rsp.code == 200
    then record { success = true; rsp = next_rsp.body; can_retry = true; closed = closed }
    else record {
      success = false;
      rsp = if is_aborted ec then timeout_text else next_rsp.status_message;
      can_retry = not (next_rsp.code == 400 || next_rsp.code == 404);
      closed = closed;
    }
