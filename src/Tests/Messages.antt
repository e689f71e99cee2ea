-- ===== src/Tests/Messages.antt =====
-- A response that arrives in pieces, and a path with a query.
use fiberproxy.Prelude.{false, true, [], ◌∷◌, codes, ◌≡◌}
use fiberproxy.Http.{
  Response, cleared, Parser, idle, end, on_msg_begin, on_headers_complete, on_status_complete,
  on_header_field, on_header_value, on_body, on_msg_complete,
}
use fiberproxy.Http.Gather.{whole, keep, cut_status}
use fiberproxy.Http.Read.{chunk, returned, parse, reads_of, parse-Cut}

abbrev ok : Response
ok = record cleared {
  code = 200;
  status_message = codes "OK";
  headers = (codes "Host", codes "h:80") ∷ [];
  body = codes "{}";
}

abbrev waiting : Parser
waiting = record { state = idle; rsp = cleared; should_continue = true }

-- the same response in two reads, of 20 and 30 bytes
parse-Cut_example :
    parse
      (reads_of ((19, on_msg_begin ∷ on_status_complete (codes "O") ∷ []) ∷ []) (
        chunk 30
          (on_status_complete (codes "K")
            ∷ on_header_field (codes "Host")
            ∷ on_header_value (codes "h:80")
            ∷ on_headers_complete
            ∷ on_body (codes "{}")
            ∷ on_msg_complete 1 1 200 false
            ∷ [])
          true
        ∷ []))
      waiting
    ≡ returned true (record { state = end; rsp = ok; should_continue = false })
parse-Cut_example =
    parse-Cut ok ((19, on_msg_begin ∷ on_status_complete (codes "O") ∷ []) ∷ []) 29 _ true waiting
      ((tt, (tt, tt)), tt)
      (keep _ (
        cut_status (codes "O") (codes "K")
          (keep _ (keep _ (keep _ (keep _ (keep _ (keep _ whole))))))))
