-- ===== src/Commands/Path.antt =====
-- The path of a single call: the service is its third piece, and the API all that follows.
use fiberproxy.Prelude.{
  ℕ, suc, ◌+◌, ◌≤◌, true, List, [], ◌∷◌, ◌++◌, some, Bytes, ◌≡◌, refl, ap, ◌∙◌, arith, length, drop,
  length-append, leb,
}
use fiberproxy.Types.{ServiceCallReq}
use fiberproxy.Commands.Parse.{parse_single_api_request, first_or_new, substr}

-- The pieces of a path with one slash between each two.
abbrev pub join : List Bytes → Bytes
join [] = []
join (e ∷ []) = e
join (e ∷ f ∷ es) = e ++ b'/' ∷ join (f ∷ es)

abbrev pub single_call : Bytes → Bytes → ℕ → Bytes → ServiceCallReq → ServiceCallReq
single_call name api method raw_req r = record r {
  service_name = name;
  service_api = api;
  service_req_data = raw_req;
  service_type = 0;
  method = method;
}

le→leb : (a b : ℕ) → a ≤ b → leb a b ≡ true
le→leb a b h = ground arith

drop-past : (e s : Bytes) (n : ℕ) → drop (length e + n) (e ++ s) ≡ drop n s
drop-past [] s n = ap (λ k. drop k s) (omega arith)
drop-past (x ∷ e) s n = ap (λ k. drop k (x ∷ e ++ s)) (step (length e)) ∙ drop-past e s n
  where
    step : (a : ℕ) → suc a + n ≡ suc (a + n)
    step a = omega arith

-- the offset of the API in a path that was not compressed
drop-pieces :
    (e0 e1 e2 s : Bytes)
    → drop (length e0 + 1 + (length e1 + 1) + length e2) (e0 ++ b'/' ∷ (e1 ++ b'/' ∷ (e2 ++ s))) ≡ s
drop-pieces e0 e1 e2 s =
    ap (λ k. drop k (e0 ++ b'/' ∷ (e1 ++ b'/' ∷ (e2 ++ s))))
      (offset (length e0) (length e1) (length e2))
    ∙ drop-past e0 (b'/' ∷ (e1 ++ b'/' ∷ (e2 ++ s))) (suc (length e1 + suc (length e2 + 0)))
    ∙ drop-past e1 (b'/' ∷ (e2 ++ s)) (suc (length e2 + 0))
    ∙ drop-past e2 s 0
  where
    offset : (a b c : ℕ) → a + 1 + (b + 1) + c ≡ a + suc (b + suc (c + 0))
    offset a b c = omega arith

length-pieces :
    (e0 e1 e2 s : Bytes)
    → length e0 + 1 + (length e1 + 1) + length e2 ≤ length (e0 ++ b'/' ∷ (e1 ++ b'/' ∷ (e2 ++ s)))
length-pieces e0 e1 e2 s = omega (
  arith,
  length-append e0 (b'/' ∷ (e1 ++ b'/' ∷ (e2 ++ s))),
  length-append e1 (b'/' ∷ (e2 ++ s)),
  length-append e2 s,
)

substr-pieces :
    (e0 e1 e2 s : Bytes)
    → substr (e0 ++ b'/' ∷ (e1 ++ b'/' ∷ (e2 ++ s))) (length e0 + 1 + (length e1 + 1) + length e2)
      ≡ some s
unfolding substr
substr-pieces e0 e1 e2 s = rw (le→leb _ _ (length-pieces e0 e1 e2 s), drop-pieces e0 e1 e2 s) refl

-- For a path whose trimmed text is four pieces or more with one slash between each two, which the
-- split gives back: the service is the third piece, and its API is a slash and all that follows.
pub parse_single_api_request-join :
    (trim : Bytes → Bytes) (split : Bytes → List Bytes) (method : ℕ) (raw_req path : Bytes)
    (reqs : List ServiceCallReq) (e0 e1 e2 e3 : Bytes) (more : List Bytes)
    → trim path ≡ join (e0 ∷ e1 ∷ e2 ∷ e3 ∷ more)
    → split (join (e0 ∷ e1 ∷ e2 ∷ e3 ∷ more)) ≡ e0 ∷ e1 ∷ e2 ∷ e3 ∷ more
    → parse_single_api_request trim split method raw_req path reqs
      ≡ some
          (true, single_call e2 (b'/' ∷ join (e3 ∷ more)) method raw_req (first_or_new reqs) ∷ [])
unfolding parse_single_api_request
parse_single_api_request-join trim split method raw_req path reqs e0 e1 e2 e3 more t s =
    rw (t, parse_single_api_request)
      (rw (s, parse_single_api_request)
        (rw (t, substr-pieces e0 e1 e2 (b'/' ∷ join (e3 ∷ more))) refl))
