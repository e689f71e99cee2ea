-- ===== src/Http/Writer.antt =====
-- source/core/fiber-server/HttpProtocolHandler.cpp, operator<< for a response.
use fiberproxy.Prelude.{
  ℕ, Bool, List, [], ◌++◌, Bytes, codes, if◌then◌else◌, length, is_empty, not, any,
}
use fiberproxy.Http.{Header, Response, crlf, header_lines}

abbrev pub server_name : Bytes
server_name = codes "FibpServer 1.0"

-- whether a header has the name, by boost::algorithm::iequals, the parameter
abbrev pub has_header : (Bytes → Bytes → Bool) → Bytes → List Header → Bool
has_header iequals name hs = any (λ (h : Header). iequals h.0 name) hs

-- the rest of the first line: a message without the end of the line, or an empty message with it
abbrev pub status_rest : Bytes → Bytes
status_rest m = if not (is_empty m) then m else codes " " ++ crlf

-- `text` gives the decimal digits of a number
unfoldable pub write_response : (ℕ → Bytes) → (Bytes → Bytes → Bool) → Response → Bytes
write_response text iequals resp =
    codes "HTTP/1.1 "
    ++ text resp.code
    ++ codes " "
    ++ status_rest resp.status_message
    ++ header_lines resp.headers
    ++ (if has_header iequals (codes "server") resp.headers
        then []
        else codes "Server: " ++ server_name ++ crlf)
    ++ (if has_header iequals (codes "content-length") resp.headers
        then []
        else codes "Content-Length: " ++ text (length resp.body) ++ crlf)
    ++ crlf
    ++ resp.body
