-- ===== src/Http/Gather.antt =====
-- A response does not depend on how its texts are cut in pieces.
use fiberproxy.Prelude.{
  Bool, true, false, List, [], ◌∷◌, ◌++◌, Bytes, ◌≡◌, refl, sym, ap, ◌∙◌, if◌then◌else◌, append-nil,
  append_assoc,
}
use fiberproxy.Http.{
  Header, Response, status, field, value, content, end, Callback, on_msg_begin, on_headers_complete,
  on_status_complete, on_header_field, on_header_value, on_body, on_msg_complete, Parser,
  append_name, change_value, is_status, is_field, is_value, step, run,
}

-- The calls on the left are those on the right with some texts cut in pieces.
pub data Cut : List Callback → List Callback → Type 0 where
  whole : Cut [] []
  keep : (c : Callback) {cs ds : List Callback} → Cut cs ds → Cut (c ∷ cs) (c ∷ ds)
  cut_status :
      (s t : Bytes) {cs ds : List Callback}
      → Cut (on_status_complete (s ++ t) ∷ cs) ds
      → Cut (on_status_complete s ∷ on_status_complete t ∷ cs) ds
  cut_field :
      (s t : Bytes) {cs ds : List Callback}
      → Cut (on_header_field (s ++ t) ∷ cs) ds
      → Cut (on_header_field s ∷ on_header_field t ∷ cs) ds
  cut_value :
      (s t : Bytes) {cs ds : List Callback}
      → Cut (on_header_value (s ++ t) ∷ cs) ds
      → Cut (on_header_value s ∷ on_header_value t ∷ cs) ds
  cut_body :
      (s t : Bytes) {cs ds : List Callback}
      → Cut (on_body (s ++ t) ∷ cs) ds
      → Cut (on_body s ∷ on_body t ∷ cs) ds

append_name-new :
    (s t : Bytes) (hs : List Header) → append_name t (hs ++ (s, []) ∷ []) ≡ hs ++ (s ++ t, []) ∷ []
unfolding append_name
append_name-new s t [] = refl
append_name-new s t (h ∷ []) = refl
append_name-new s t (h ∷ k ∷ hs) = ap (λ l. h ∷ l) (append_name-new s t (k ∷ hs))

append_name-append :
    (s t : Bytes) (hs : List Header) → append_name t (append_name s hs) ≡ append_name (s ++ t) hs
unfolding append_name
append_name-append s t [] = refl
append_name-append s t ((n, v) ∷ []) = ap (λ m. (m, v) ∷ []) (append_assoc n s t)
append_name-append s t (h ∷ k ∷ []) = ap (λ l. h ∷ l) (append_name-append s t (k ∷ []))
append_name-append s t (h ∷ k ∷ l ∷ hs) = ap (λ l. h ∷ l) (append_name-append s t (k ∷ l ∷ hs))

pub change_value-twice :
    (f g h : Bytes → Bytes) (hs : List Header)
    → ((v : Bytes) → g (f v) ≡ h v)
    → change_value g (change_value f hs) ≡ change_value h hs
unfolding change_value
change_value-twice f g h [] e = refl
change_value-twice f g h ((n, v) ∷ []) e = ap (λ w. (n, w) ∷ []) (e v)
change_value-twice f g h (x ∷ y ∷ []) e = ap (λ l. x ∷ l) (change_value-twice f g h (y ∷ []) e)
change_value-twice f g h (x ∷ y ∷ z ∷ hs) e =
    ap (λ l. x ∷ l) (change_value-twice f g h (y ∷ z ∷ hs) e)

-- A text that goes on or starts anew.
pub text_more :
    (on : Bool) (m s t : Bytes)
    → (if on then m ++ s else s) ++ t ≡ (if on then m ++ (s ++ t) else s ++ t)
text_more true m s t = append_assoc m s t
text_more false m s t = refl

pub name_more :
    (on : Bool) (s t : Bytes) (hs : List Header)
    → append_name t (if on then append_name s hs else hs ++ (s, []) ∷ [])
      ≡ (if on then append_name (s ++ t) hs else hs ++ (s ++ t, []) ∷ [])
name_more true s t hs = append_name-append s t hs
name_more false s t hs = append_name-new s t hs

step-status :
    (s t : Bytes) (p : Parser)
    → step (on_status_complete t) (step (on_status_complete s) p)
      ≡ step (on_status_complete (s ++ t)) p
unfolding step
step-status s t p =
    ap (λ m. record p { rsp = record (p.rsp) { status_message = m }; state = status })
      (text_more (is_status p.state) p.rsp.status_message s t)

step-field :
    (s t : Bytes) (p : Parser)
    → step (on_header_field t) (step (on_header_field s) p) ≡ step (on_header_field (s ++ t)) p
unfolding step
step-field s t p =
    ap (λ hs. record p { rsp = record (p.rsp) { headers = hs }; state = field })
      (name_more (is_field p.state) s t p.rsp.headers)

step-value :
    (s t : Bytes) (p : Parser)
    → step (on_header_value t) (step (on_header_value s) p) ≡ step (on_header_value (s ++ t)) p
unfolding step
step-value s t p =
    ap (λ hs. record p { rsp = record (p.rsp) { headers = hs }; state = value })
      (change_value-twice (λ v. if is_value p.state then v ++ s else s) (λ v. v ++ t)
        (λ v. if is_value p.state then v ++ (s ++ t) else s ++ t) p.rsp.headers
        (λ v. text_more (is_value p.state) v s t))

step-body :
    (s t : Bytes) (p : Parser) → step (on_body t) (step (on_body s) p) ≡ step (on_body (s ++ t)) p
unfolding step
step-body s t p =
    ap (λ b. record p { rsp = record (p.rsp) { body = b }; state = content })
      (append_assoc p.rsp.body s t)

run-Cut : {cs ds : List Callback} → Cut cs ds → (p : Parser) → run cs p ≡ run ds p
unfolding run
run-Cut whole p = refl
run-Cut (keep c r) p = run-Cut r (step c p)
run-Cut (cut_status s t {cs = cs} r) p = ap (run cs) (step-status s t p) ∙ run-Cut r p
run-Cut (cut_field s t {cs = cs} r) p = ap (run cs) (step-field s t p) ∙ run-Cut r p
run-Cut (cut_value s t {cs = cs} r) p = ap (run cs) (step-value s t p) ∙ run-Cut r p
run-Cut (cut_body s t {cs = cs} r) p = ap (run cs) (step-body s t p) ∙ run-Cut r p

-- The calls for a whole response, with each text in one piece.
abbrev pub header_calls : List Header → List Callback → List Callback
header_calls [] rest = rest
header_calls ((n, v) ∷ hs) rest = on_header_field n ∷ on_header_value v ∷ header_calls hs rest

abbrev pub last_calls : Response → List Callback
last_calls r =
    on_headers_complete
    ∷ on_body r.body
    ∷ on_msg_complete r.http_major r.http_minor r.code r.keep_alive
    ∷ []

abbrev pub calls : Response → List Callback
calls r = on_msg_begin ∷ on_status_complete r.status_message ∷ header_calls r.headers (last_calls r)

pub change_value-last :
    (n v : Bytes) (hs : List Header)
    → change_value (λ w. v) (hs ++ (n, []) ∷ []) ≡ hs ++ (n, v) ∷ []
unfolding change_value
change_value-last n v [] = refl
change_value-last n v (h ∷ []) = refl
change_value-last n v (h ∷ k ∷ hs) = ap (λ l. h ∷ l) (change_value-last n v (k ∷ hs))

-- What the headers of a response and the end of it add to what is gathered so far.
abbrev finished : Response → List Header → Parser → Parser
finished r hs p = record {
  state = end;
  rsp = record r {
    status_message = p.rsp.status_message;
    headers = p.rsp.headers ++ hs;
    body = p.rsp.body ++ r.body;
  };
  should_continue = false;
}

one_header :
    (n v : Bytes) (p : Parser)
    → is_field p.state ≡ false
    → (step (on_header_value v) (step (on_header_field n) p)).rsp.headers
      ≡ p.rsp.headers ++ (n, v) ∷ []
unfolding step
one_header n v p e =
    ap
      (λ on.
        change_value (λ w. v)
          (if on then append_name n p.rsp.headers else p.rsp.headers ++ (n, []) ∷ []))
      e
    ∙ change_value-last n v p.rsp.headers

run-header_calls :
    (r : Response) (hs : List Header) (p : Parser)
    → is_field p.state ≡ false
    → run (header_calls hs (last_calls r)) p ≡ finished r hs p
unfolding run step
run-header_calls r [] p e =
    ap (λ l. record (finished r [] p) { rsp = record ((finished r [] p).rsp) { headers = l } })
      (sym (append-nil p.rsp.headers))
run-header_calls r ((n, v) ∷ hs) p e =
    run-header_calls r hs (step (on_header_value v) (step (on_header_field n) p)) refl
    ∙ ap (λ l. record (finished r [] p) { rsp = record ((finished r [] p).rsp) { headers = l } })
        (ap (λ l. l ++ hs) (one_header n v p e) ∙ append_assoc p.rsp.headers ((n, v) ∷ []) hs)

-- However the texts of a response are cut in pieces, what is gathered is that response, and the
-- parser has stopped.
pub run-calls :
    {cs : List Callback} (r : Response) (p : Parser)
    → Cut cs (calls r)
    → run cs p ≡ record { state = end; rsp = r; should_continue = false }
unfolding run step
run-calls r p cut = run-Cut cut p ∙ run-header_calls r r.headers _ refl
