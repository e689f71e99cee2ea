-- ===== src/Http/Read.antt =====
-- source/core/fiber-server/HttpProtocolHandler.cpp, response::parser_impl::parse: the loop that reads a
-- response, and that it gathers the response however the peer's bytes come. The exit of the loop for a
-- socket that was closed meanwhile, which returns true, is not modelled: each read finds it open.
use fiberproxy.Prelude.{
  ℕ, suc, Bool, true, false, not, List, [], ◌∷◌, ◌++◌, ◌≡◌, refl, sym, ap, ◌∙◌, if◌then◌else◌, ◌==◌,
  All, arith,
}
use fiberproxy.Http.{
  Response, idle, end, Callback, on_msg_begin, on_headers_complete, on_status_complete,
  on_header_field, on_header_value, on_body, on_msg_complete, Parser, step, run,
}
use fiberproxy.Http.Gather.{Cut, calls, run-calls}

-- A read fails, by another error than the end of the stream, or has `n` bytes, for which http_parser
-- makes some calls; `whole` is whether it takes all of them.
pub data Read : Type 0 where
  failed : Read
  chunk : (n : ℕ) (cs : List Callback) (whole : Bool) → Read

-- What the reads so far have come to.
pub data Parsed : Type 0 where
  waits : Parser → Parsed
  returned : Bool → Parser → Parsed

unfoldable pub parse_reads : List Read → Parser → Parsed
parse_reads [] p = waits p
parse_reads (failed ∷ reads) p = returned false p
parse_reads (chunk n cs whole ∷ reads) p =
    let p' = run cs p in
    let rest = parse_reads reads p' in
    if n == 0
    then returned true p'
    else if not p'.should_continue
    then returned true p'
    else if not whole
    then returned false p'
    else rest

-- parse, from its first lines on
unfoldable pub parse : List Read → Parser → Parsed
parse reads p = parse_reads reads (record p { should_continue = true; state = idle })

-- A call that is not the end of the message.
abbrev pub GoesOn : Callback → Type 0
GoesOn (on_msg_complete major minor code keep) = ⊥
GoesOn c = Unit

step-should_continue :
    (c : Callback) (p : Parser) → GoesOn c → (step c p).should_continue ≡ p.should_continue
unfolding step
step-should_continue on_msg_begin p g = refl
step-should_continue on_headers_complete p g = refl
step-should_continue (on_status_complete s) p g = refl
step-should_continue (on_header_field s) p g = refl
step-should_continue (on_header_value s) p g = refl
step-should_continue (on_body s) p g = refl
step-should_continue (on_msg_complete major minor code keep) p g = elim g [ ]

run-should_continue :
    (cs : List Callback) (p : Parser)
    → All GoesOn cs
    → (run cs p).should_continue ≡ p.should_continue
unfolding run
run-should_continue [] p g = refl
run-should_continue (c ∷ cs) p g =
    run-should_continue cs (step c p) g.1 ∙ step-should_continue c p g.0

run-append : (cs ds : List Callback) (p : Parser) → run (cs ++ ds) p ≡ run ds (run cs p)
unfolding run
run-append [] ds p = refl
run-append (c ∷ cs) ds p = run-append cs ds (step c p)

-- The pieces in which the bytes of a response come: full reads, and the last.
abbrev pub reads_of : List (ℕ × List Callback) → List Read → List Read
reads_of [] last = last
reads_of ((n, cs) ∷ l) last = chunk (suc n) cs true ∷ reads_of l last

abbrev pub calls_of : List (ℕ × List Callback) → List Callback → List Callback
calls_of [] last = last
calls_of ((n, cs) ∷ l) last = cs ++ calls_of l last

parse_reads-chunk :
    (n : ℕ) (cs : List Callback) (whole : Bool) (reads : List Read) (p : Parser)
    → (run cs p).should_continue ≡ true
    → whole ≡ true
    → parse_reads (chunk (suc n) cs whole ∷ reads) p ≡ parse_reads reads (run cs p)
unfolding parse_reads
parse_reads-chunk n cs whole reads p e w = ground (arith, e, w)

parse_reads-last :
    (n : ℕ) (cs : List Callback) (whole : Bool) (p : Parser)
    → (run cs p).should_continue ≡ false
    → parse_reads (chunk (suc n) cs whole ∷ []) p ≡ returned true (run cs p)
unfolding parse_reads
parse_reads-last n cs whole p e = ground (arith, e)

parse_reads-run :
    (pieces : List (ℕ × List Callback)) (n : ℕ) (cs : List Callback) (whole : Bool) (p : Parser)
    → p.should_continue ≡ true
    → All (λ (q : ℕ × List Callback). All GoesOn q.1) pieces
    → (run (calls_of pieces cs) p).should_continue ≡ false
    → parse_reads (reads_of pieces (chunk (suc n) cs whole ∷ [])) p
      ≡ returned true (run (calls_of pieces cs) p)
parse_reads-run [] n cs whole p c g e = parse_reads-last n cs whole p e
parse_reads-run ((k, ds) ∷ l) n cs whole p c g e =
    parse_reads-chunk k ds true _ p (run-should_continue ds p g.0 ∙ c) refl
    ∙ parse_reads-run l n cs whole (run ds p) (run-should_continue ds p g.0 ∙ c) g.1
        (sym (ap (λ (q : Parser). q.should_continue) (run-append ds (calls_of l cs) p)) ∙ e)
    ∙ ap (returned true) (sym (run-append ds (calls_of l cs) p))

-- A response whose calls come in some full reads, with its end in the last, is returned whole and
-- as a success, however its texts are cut in pieces.
pub parse-Cut :
    (r : Response) (pieces : List (ℕ × List Callback)) (n : ℕ) (cs : List Callback) (whole : Bool)
    (p : Parser)
    → All (λ (q : ℕ × List Callback). All GoesOn q.1) pieces
    → Cut (calls_of pieces cs) (calls r)
    → parse (reads_of pieces (chunk (suc n) cs whole ∷ [])) p
      ≡ returned true (record { state = end; rsp = r; should_continue = false })
unfolding parse
parse-Cut r pieces n cs whole p g cut =
    parse_reads-run pieces n cs whole start refl g
      (ap (λ (q : Parser). q.should_continue) (run-calls r start cut))
    ∙ ap (returned true) (run-calls r start cut)
  where
    start : Parser
    start = record p { should_continue = true; state = idle }
