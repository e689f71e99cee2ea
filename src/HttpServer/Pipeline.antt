-- ===== src/HttpServer/Pipeline.antt =====
-- do_parse deals with the requests of its reads in order, each once, until one ends the reading.
use fiberproxy.Prelude.{
  Bool, true, false, ◌&&◌, not, List, [], ◌∷◌, ◌++◌, Option, some, Bytes, ◌≡◌, refl, if◌then◌else◌,
  ◌==◌, append-nil, arith,
}
use fiberproxy.Http.Incoming.{RequestT}
use fiberproxy.HttpServer.{Router, Texts, Conn, shutdown, error_text, s_err_rsp_500}
use fiberproxy.HttpServer.Loop.{
  Read, failed, chunk, touch, on_read_error, execute, after_execute, do_parse,
}
use fiberproxy.HttpServer.Since.{
  IsFresh, Since, Since-here, Since-touch, Since-then, Since-shutdown, sent-Since, deferred-Since,
  scheduled-Since,
}
use fiberproxy.HttpServer.Order.{
  trimmed, reply, goes_on, served, all_go_on, stays, replies, postponed, expected, awaited,
  stays_open, sent, effect, told, put, Fate, now, later, scheduled, is_now, PoolTask, give, given,
  given_all, request_cb-sent, write_error_rsp-sent,
}

-- What execute is to do, with what it adds.
abbrev Executed :
    Conn → List Bytes → List RequestT → List PoolTask → Bool → Bool → Option (Bool × Conn) → Type 0
Executed c s w q go stay o = (d : Conn) × (o ≡ some (go, d)) × Since c s w q stay d

execute-cons :
    (o : Fate) (m : RequestT) (b go stay : Bool) (ss : List Bytes) (ws : List RequestT)
    (qs : List PoolTask) (c : Conn) (next : Conn → Option (Bool × Conn))
    → c.writable ≡ true
    → ((e : Conn) → e.writable ≡ true → Executed e ss ws qs go stay (next e))
    → let d = touch (effect o b m c) in
      Executed c
        (told o (if b then ss else []))
        (put o m (if b then ws else []))
        (give o m (if b then qs else []))
        (b && go)
        (if b then stay else not (is_now o))
        (if b then next d else some (false, d))
execute-cons later m true go stay ss ws qs c next w ih =
    let (d, e, v) = ih (touch (effect later true m c)) w in
    (d, e, Since-then (Since-touch (deferred-Since m true c w)) v)
execute-cons (scheduled k a) m true go stay ss ws qs c next w ih =
    let (d, e, v) = ih (touch (effect (scheduled k a) true m c)) w in
    (d, e, Since-then (Since-touch (scheduled-Since k a m true c w)) v)
execute-cons (now s) m true go stay ss ws qs c next w ih =
    let (d, e, v) = ih (touch (sent s true c)) w in
    (d, e, Since-then (Since-touch (sent-Since s true c w)) v)
execute-cons later m false go stay ss ws qs c next w ih =
    (touch (effect later false m c), refl, Since-touch (deferred-Since m false c w))
execute-cons (scheduled k a) m false go stay ss ws qs c next w ih =
    (touch (effect (scheduled k a) false m c), refl, Since-touch (scheduled-Since k a m false c w))
execute-cons (now s) m false go stay ss ws qs c next w ih =
    (touch (sent s false c), refl, Since-touch (sent-Since s false c w))

stale-touch : (d : Conn) → d.parser ≡ false → (touch d).stale ≡ true
stale-touch d e = ground (arith, e)

-- What do_parse is to do: the answers, the requests that wait, and a parser that was used after it
-- was freed when the connection was shut down.
abbrev Parsed : Conn → List Bytes → List RequestT → List PoolTask → Bool → Option Conn → Type 0
Parsed c s w q stay o =
    (d : Conn) × (o ≡ some d) × Since c s w q stay d × (stay ≡ false → d.stale ≡ true)

ended :
    {c d : Conn} {s : List Bytes} {w : List RequestT} {q : List PoolTask} (stay : Bool)
    → Since c s w q stay d
    → Parsed c s w q stay (some (touch d))
ended {d = d} stay v = (touch d, refl, Since-touch v, λ g. stale-touch d (v.closed g).1)

parse_chunk :
    (zero whole go stay on_later : Bool) {c d : Conn} {s t : List Bytes} {w x : List RequestT}
    {q r : List PoolTask} (next : Conn → Option Conn)
    → (go ≡ true → stay ≡ true)
    → Since c s w q stay d
    → ((e : Conn) → e.writable ≡ true → Parsed e t x r on_later (next e))
    → let (on, e) : Bool × Conn =
        if zero
        then (false, shutdown d)
        else if not go
        then (false, d)
        else if not whole
        then (false, shutdown d)
        else (true, d) in
      Parsed c
        (s ++ (if not zero && go && whole then t else []))
        (w ++ (if not zero && go && whole then x else []))
        (q ++ (if not zero && go && whole then r else []))
        (not zero && (if go then whole && on_later else stay))
        (if on then next e else some (touch e))
parse_chunk true whole go stay on_later next g v ih =
    rw (append-nil, append-nil, append-nil) (ended false (Since-shutdown v))
parse_chunk false whole false stay on_later next g v ih =
    rw (append-nil, append-nil, append-nil) (ended stay v)
parse_chunk false false true stay on_later next g v ih =
    rw (append-nil, append-nil, append-nil) (ended false (Since-shutdown v))
parse_chunk false true true true on_later {c} {d} next g v ih =
    let (e, p, u, y) = ih d v.writable in (e, p, Since-then v u, y)
parse_chunk false true true false on_later next g v ih = absurd (cc (g refl))

module _ (lib : Texts) {H : Type 0} (router : Router H) (pooled : Bool) where
  replies-served :
      (m : RequestT) (ms : List RequestT)
      → replies lib router pooled (served lib router pooled (m ∷ ms))
        ≡ told (reply lib router pooled m).0 (
            if goes_on lib router pooled m
            then replies lib router pooled (served lib router pooled ms)
            else [])
  replies-served m ms = go (goes_on lib router pooled m)
    where
      go :
          (b : Bool)
          → replies lib router pooled (if b then m ∷ served lib router pooled ms else m ∷ [])
            ≡ told
                (reply lib router pooled m).0
                (if b then replies lib router pooled (served lib router pooled ms) else [])
      go true = refl
      go false = refl

  postponed-served :
      (m : RequestT) (ms : List RequestT)
      → postponed lib router pooled (served lib router pooled (m ∷ ms))
        ≡ put (reply lib router pooled m).0 (trimmed lib router pooled m) (
            if goes_on lib router pooled m
            then postponed lib router pooled (served lib router pooled ms)
            else [])
  postponed-served m ms = go (goes_on lib router pooled m)
    where
      go :
          (b : Bool)
          → postponed lib router pooled (if b then m ∷ served lib router pooled ms else m ∷ [])
            ≡ put
                (reply lib router pooled m).0
                (trimmed lib router pooled m)
                (if b then postponed lib router pooled (served lib router pooled ms) else [])
      go true = refl
      go false = refl

  given-served :
      (m : RequestT) (ms : List RequestT)
      → given lib router pooled (served lib router pooled (m ∷ ms))
        ≡ give (reply lib router pooled m).0 (trimmed lib router pooled m) (
            if goes_on lib router pooled m
            then given lib router pooled (served lib router pooled ms)
            else [])
  given-served m ms = go (goes_on lib router pooled m)
    where
      go :
          (b : Bool)
          → given lib router pooled (if b then m ∷ served lib router pooled ms else m ∷ [])
            ≡ give
                (reply lib router pooled m).0
                (trimmed lib router pooled m)
                (if b then given lib router pooled (served lib router pooled ms) else [])
      go true = refl
      go false = refl

  all_go_on-stays :
      (ms : List RequestT)
      → all_go_on lib router pooled ms ≡ true
      → stays lib router pooled ms ≡ true
  all_go_on-stays [] h = refl
  all_go_on-stays (m ∷ ms) h = go (goes_on lib router pooled m) h (all_go_on-stays ms)
    where
      go :
          (b : Bool)
          → (b && all_go_on lib router pooled ms) ≡ true
          → (all_go_on lib router pooled ms ≡ true → stays lib router pooled ms ≡ true)
          → (if b then stays lib router pooled ms else not (is_now (reply lib router pooled m).0))
            ≡ true
      go true h k = k h
      go false h k = cc

  execute-Since :
      (ms : List RequestT) (c : Conn)
      → c.writable ≡ true
      → Executed c
          (replies lib router pooled (served lib router pooled ms))
          (postponed lib router pooled (served lib router pooled ms))
          (given lib router pooled (served lib router pooled ms))
          (all_go_on lib router pooled ms)
          (stays lib router pooled ms)
          (execute lib router pooled ms c)
  unfolding execute
  execute-Since [] c w = (c, refl, Since-here c w)
  execute-Since (m ∷ ms) c w =
      rw
        (
          request_cb-sent lib router pooled m c w,
          replies-served m ms,
          postponed-served m ms,
          given-served m ms,
        )
        (execute-cons (reply lib router pooled m).0 (trimmed lib router pooled m)
          (goes_on lib router pooled m) (all_go_on lib router pooled ms)
          (stays lib router pooled ms) (replies lib router pooled (served lib router pooled ms))
          (postponed lib router pooled (served lib router pooled ms))
          (given lib router pooled (served lib router pooled ms)) c (execute lib router pooled ms) w
          (execute-Since ms))

  do_parse-Parsed :
      (reads : List Read) (c : Conn)
      → c.writable ≡ true
      → Parsed c
          (expected lib router pooled reads)
          (awaited lib router pooled reads)
          (given_all lib router pooled reads)
          (stays_open lib router pooled reads)
          (do_parse lib router pooled reads c)
  unfolding do_parse on_read_error after_execute
  do_parse-Parsed [] c w = (c, refl, Since-here c w, λ g. absurd (cc g))
  do_parse-Parsed (failed ∷ reads) c w =
      rw (write_error_rsp-sent lib router pooled s_err_rsp_500 c w)
        (ended false (sent-Since (error_text s_err_rsp_500) false c w))
  do_parse-Parsed (chunk n ms whole ∷ reads) c w =
      let (d, q, v) = execute-Since ms c w in
      rw q (
        parse_chunk (n == 0) whole (all_go_on lib router pooled ms) (stays lib router pooled ms)
          (stays_open lib router pooled reads) (do_parse lib router pooled reads)
          (all_go_on-stays ms) v (do_parse-Parsed reads))

  open_end :
      (stay : Bool) {c d : Conn} {s : List Bytes} {w : List RequestT} {q : List PoolTask}
      → IsFresh c
      → Since c s w q stay d
      → (stay ≡ false → d.stale ≡ true)
      → (d.receiving ≡ stay) × (d.stale ≡ not stay)
  open_end true f v x = let g = v.fresh refl f in (g.listens, g.clean)
  open_end false f v x = ((v.closed refl).0, x refl)

  -- On a fresh connection that can be written to, with a fiber pool or without: of the requests of
  -- the reads, up to the first that ends the reading, each is dealt with once, and those dealt with
  -- in the same way in their order. It is answered at once, or waits for the answer of a handler
  -- that defers it; with a pool, each request that has a controller in its path goes to the pool,
  -- and only an error for a path without one is answered at once. A read that fails adds one error.
  -- The connection goes on listening when nothing has shut it down; else its parser was used after
  -- it was freed.
  pub do_parse-answers :
      (reads : List Read) (c : Conn)
      → c.writable ≡ true
      → IsFresh c
      → (d : Conn) × (do_parse lib router pooled reads c ≡ some d)
        × (d.answers ≡ c.answers ++ expected lib router pooled reads)
        × (d.waiting ≡ c.waiting ++ awaited lib router pooled reads)
        × (d.queued ≡ c.queued ++ given_all lib router pooled reads)
        × (d.receiving ≡ stays_open lib router pooled reads)
        × (d.stale ≡ not (stays_open lib router pooled reads))
  do_parse-answers reads c w f =
      let (d, q, v, x) = do_parse-Parsed reads c w in
      let (l, t) = open_end (stays_open lib router pooled reads) f v x in
      (d, q, v.answers, v.waiting, v.queued, l, t)
