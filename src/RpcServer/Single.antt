-- ===== src/RpcServer/Single.antt =====
-- The method of a request for one service: its name and the path.
use fiberproxy.Prelude.{
  ℕ, suc, ◌+◌, true, false, [], ◌∷◌, ◌++◌, some, Bytes, codes, bytes_eq, ◌==◌, leb, length, drop,
  ◌≡◌, refl, ap, ◌∙◌, arith, take-append,
}
use fiberproxy.Transaction.{find, find_list, is_prefix}
use fiberproxy.Logger.{start_service_call}
use fiberproxy.RpcServer.{
  Request, Server, single_req, method_test, method_call_services_async,
  method_call_single_service_async, dispatch,
}

abbrev pub HasNoSlash : Bytes → Type 0
HasNoSlash [] = Unit
HasNoSlash (c ∷ s) = ((c == b'/') ≡ false) × HasNoSlash s

-- call_single_service_async/<name>/<path>
abbrev pub single_method : Bytes → Bytes → Bytes
single_method name api = method_call_single_service_async ++ (b'/' ∷ (name ++ (b'/' ∷ api)))

find_list-HasNoSlash :
    (name api : Bytes) (i : ℕ)
    → HasNoSlash name
    → find_list (codes "/") (name ++ (b'/' ∷ api)) i ≡ some (i + length name)
unfolding find_list is_prefix
find_list-HasNoSlash [] api i h = ap some (omega arith)
find_list-HasNoSlash (c ∷ name) api i h = ground (arith, find_list-HasNoSlash name api (i + 1) h.1)

is_prefix-single_method :
    (name api : Bytes) → is_prefix method_call_single_service_async (single_method name api) ≡ true
unfolding is_prefix
is_prefix-single_method name api = refl

single_method-test : (name api : Bytes) → bytes_eq (single_method name api) method_test ≡ false
unfolding bytes_eq
single_method-test name api = refl

single_method-call_services_async :
    (name api : Bytes) → bytes_eq (single_method name api) method_call_services_async ≡ false
unfolding bytes_eq
single_method-call_services_async name api = refl

le-single_method :
    (name api : Bytes)
    → leb (length method_call_single_service_async + 1) (length (single_method name api)) ≡ true
le-single_method name api = ground arith

drop-single_method :
    (name api : Bytes)
    → drop (length method_call_single_service_async + 1) (single_method name api)
      ≡ name ++ (b'/' ∷ api)
drop-single_method name api = refl

find-HasNoSlash :
    (name api : Bytes)
    → HasNoSlash name
    → find (name ++ (b'/' ∷ api)) (codes "/") 0 ≡ some (length name)
unfolding find
find-HasNoSlash name api h = ground (arith, find_list-HasNoSlash name api 0 h)

drop-suc : (name api : Bytes) → drop (suc (length name)) (name ++ (b'/' ∷ api)) ≡ api
drop-suc [] api = refl
drop-suc (c ∷ name) api = drop-suc name api

drop_behind : (name api : Bytes) → drop (length name + 1) (name ++ (b'/' ∷ api)) ≡ api
drop_behind name api =
    let e : length name + 1 ≡ suc (length name) = omega arith in
    ap (λ n. drop n (name ++ (b'/' ∷ api))) e ∙ drop-suc name api

module _ {O : Type 0} (what : Bytes) where
  pub dispatch-single_method :
      (now : ℕ) (q : Request) (name api : Bytes) (s : Server O)
      → q.method ≡ some (single_method name api)
      → HasNoSlash name
      → dispatch what now q s ≡ (
        record s { log = (start_service_call now s.log).0 },
        some (record {
          id = (start_service_call now s.log).1;
          reqs = single_req name api q.packed ∷ [];
          single = true;
        }),
      )
  unfolding dispatch
  dispatch-single_method now q name api s m h =
      rw
        (
          m,
          single_method-test name api,
          single_method-call_services_async name api,
          is_prefix-single_method name api,
          le-single_method name api,
          drop-single_method name api,
          find-HasNoSlash name api h,
          take-append name (b'/' ∷ api),
          drop_behind name api,
        )
        refl
