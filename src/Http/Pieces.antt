-- ===== src/Http/Pieces.antt =====
-- A request does not depend on how its texts are cut in pieces.
use fiberproxy.Prelude.{
  ℕ, Bool, false, List, [], ◌∷◌, ◌++◌, Bytes, ◌≡◌, refl, sym, ap, ◌∙◌, if◌then◌else◌, append-nil,
  append_assoc,
}
use fiberproxy.Http.{Header, append_name, change_value}
use fiberproxy.Http.Gather.{text_more, name_more, change_value-twice, change_value-last}
use fiberproxy.Http.Incoming.{
  RequestT, Url, url, field, value, content, end, Call, on_msg_begin, on_headers_complete, on_url,
  on_header_field, on_header_value, on_body, on_msg_complete, Gathered, is_url, is_field, is_value,
  set_url, no_request, step, run,
}

-- The calls on the left are those on the right with some texts cut in pieces.
pub data Cut : List Call → List Call → Type 0 where
  whole : Cut [] []
  keep : (c : Call) {cs ds : List Call} → Cut cs ds → Cut (c ∷ cs) (c ∷ ds)
  cut_url :
      (s t : Bytes) {cs ds : List Call}
      → Cut (on_url (s ++ t) ∷ cs) ds
      → Cut (on_url s ∷ on_url t ∷ cs) ds
  cut_field :
      (s t : Bytes) {cs ds : List Call}
      → Cut (on_header_field (s ++ t) ∷ cs) ds
      → Cut (on_header_field s ∷ on_header_field t ∷ cs) ds
  cut_value :
      (s t : Bytes) {cs ds : List Call}
      → Cut (on_header_value (s ++ t) ∷ cs) ds
      → Cut (on_header_value s ∷ on_header_value t ∷ cs) ds
  cut_body :
      (s t : Bytes) {cs ds : List Call}
      → Cut (on_body (s ++ t) ∷ cs) ds
      → Cut (on_body s ∷ on_body t ∷ cs) ds

-- What the calls of one request tell, before its URL is taken apart.
pub record Told : Type 0 where
  pub url_text : Bytes
  pub headers : List Header
  pub body : Bytes
  pub method : ℕ
  pub http_major : ℕ
  pub http_minor : ℕ
  pub keep_alive : Bool

abbrev pub header_calls : List Header → List Call → List Call
header_calls [] rest = rest
header_calls ((n, v) ∷ hs) rest = on_header_field n ∷ on_header_value v ∷ header_calls hs rest

abbrev pub last_calls : Told → List Call
last_calls r =
    on_headers_complete
    ∷ on_body r.body
    ∷ on_msg_complete r.http_major r.http_minor r.method r.keep_alive
    ∷ []

abbrev pub calls : Told → List Call
calls r = on_msg_begin ∷ on_url r.url_text ∷ header_calls r.headers (last_calls r)

-- The request that they make.
abbrev pub told_request : (Bytes → Url) → Told → RequestT
told_request parse_url r = set_url (parse_url r.url_text) (record no_request {
  headers = r.headers;
  body = r.body;
  method = r.method;
  http_major = r.http_major;
  http_minor = r.http_minor;
  keep_alive = r.keep_alive;
})

module _ (parse_url : Bytes → Url) where
  step-url :
      (s t : Bytes) (p : Gathered)
      → step parse_url (on_url t) (step parse_url (on_url s) p) ≡ step parse_url (on_url (s ++ t)) p
  unfolding step
  step-url s t p =
      ap (λ m. record p { url_text = m; state = url }) (text_more (is_url p.state) p.url_text s t)

  step-field :
      (s t : Bytes) (p : Gathered)
      → step parse_url (on_header_field t) (step parse_url (on_header_field s) p)
        ≡ step parse_url (on_header_field (s ++ t)) p
  unfolding step
  step-field s t p =
      ap (λ hs. record p { req = record (p.req) { headers = hs }; state = field })
        (name_more (is_field p.state) s t p.req.headers)

  step-value :
      (s t : Bytes) (p : Gathered)
      → step parse_url (on_header_value t) (step parse_url (on_header_value s) p)
        ≡ step parse_url (on_header_value (s ++ t)) p
  unfolding step
  step-value s t p =
      ap (λ hs. record p { req = record (p.req) { headers = hs }; state = value })
        (change_value-twice (λ v. if is_value p.state then v ++ s else s) (λ v. v ++ t)
          (λ v. if is_value p.state then v ++ (s ++ t) else s ++ t) p.req.headers
          (λ v. text_more (is_value p.state) v s t))

  step-body :
      (s t : Bytes) (p : Gathered)
      → step parse_url (on_body t) (step parse_url (on_body s) p)
        ≡ step parse_url (on_body (s ++ t)) p
  unfolding step
  step-body s t p =
      ap (λ b. record p { req = record (p.req) { body = b }; state = content })
        (append_assoc p.req.body s t)

  run-Cut :
      {cs ds : List Call} → Cut cs ds → (p : Gathered) → run parse_url cs p ≡ run parse_url ds p
  unfolding run
  run-Cut whole p = refl
  run-Cut (keep c r) p = run-Cut r (step parse_url c p)
  run-Cut (cut_url s t {cs = cs} r) p = ap (run parse_url cs) (step-url s t p) ∙ run-Cut r p
  run-Cut (cut_field s t {cs = cs} r) p = ap (run parse_url cs) (step-field s t p) ∙ run-Cut r p
  run-Cut (cut_value s t {cs = cs} r) p = ap (run parse_url cs) (step-value s t p) ∙ run-Cut r p
  run-Cut (cut_body s t {cs = cs} r) p = ap (run parse_url cs) (step-body s t p) ∙ run-Cut r p

  one_header :
      (n v : Bytes) (p : Gathered)
      → is_field p.state ≡ false
      → (step parse_url (on_header_value v) (step parse_url (on_header_field n) p)).req.headers
        ≡ p.req.headers ++ (n, v) ∷ []
  unfolding step
  one_header n v p e =
      ap
        (λ on.
          change_value (λ w. v)
            (if on then append_name n p.req.headers else p.req.headers ++ (n, []) ∷ []))
        e
      ∙ change_value-last n v p.req.headers

  -- What the headers and the end of a request make of what is gathered so far.
  abbrev finished : Told → List Header → Gathered → Gathered
  finished r hs p = record {
    state = end;
    url_text = p.url_text;
    req = set_url (parse_url p.url_text) (record (p.req) {
      headers = hs;
      body = p.req.body ++ r.body;
      method = r.method;
      http_major = r.http_major;
      http_minor = r.http_minor;
      keep_alive = r.keep_alive;
    });
  }

  run-header_calls :
      (r : Told) (hs : List Header) (p : Gathered)
      → is_field p.state ≡ false
      → run parse_url (header_calls hs (last_calls r)) p ≡ finished r (p.req.headers ++ hs) p
  unfolding run step
  run-header_calls r [] p e = ap (λ l. finished r l p) (sym (append-nil p.req.headers))
  run-header_calls r ((n, v) ∷ hs) p e =
      run-header_calls r hs
        (step parse_url (on_header_value v) (step parse_url (on_header_field n) p)) refl
      ∙ ap (λ l. finished r l p)
          (ap (λ l. l ++ hs) (one_header n v p e) ∙ append_assoc p.req.headers ((n, v) ∷ []) hs)

  -- However the texts of a request are cut in pieces, what is gathered is that request, with the
  -- parts of its whole URL.
  pub run-told :
      {cs : List Call} (r : Told) (p : Gathered)
      → Cut cs (calls r)
      → (run parse_url cs p).req ≡ told_request parse_url r
  unfolding run step
  run-told r p cut =
      ap (λ (g : Gathered). g.req) (run-Cut cut p ∙ run-header_calls r r.headers _ refl)
