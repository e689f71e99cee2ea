-- ===== src/HttpServer/Since.antt =====
-- What a part of the reading adds to a connection.
use fiberproxy.Prelude.{
  Bool, true, false, List, [], ◌∷◌, ◌++◌, Bytes, ◌≡◌, refl, sym, ap, ◌∙◌, append_assoc, append-nil,
}
use fiberproxy.Http.Incoming.{RequestT}
use fiberproxy.HttpServer.{Conn, shutdown}
use fiberproxy.HttpServer.Loop.{touch}
use fiberproxy.HttpServer.Order.{PoolTask, later, scheduled, sent, effect}

-- A connection whose parser is there and was never used after its end.
pub record IsFresh (c : Conn) : Type 0 where
  pub held : c.parser ≡ true
  pub listens : c.receiving ≡ true
  pub clean : c.stale ≡ false

-- What was answered and deferred since `c`, and whether the connection stays open: then it is fresh
-- still when it began fresh, and else it was shut down.
pub record Since (c : Conn) (s : List Bytes) (w : List RequestT) (q : List PoolTask) (stay : Bool)
    (d : Conn) : Type 0 where
  pub answers : d.answers ≡ c.answers ++ s
  pub waiting : d.waiting ≡ c.waiting ++ w
  pub queued : d.queued ≡ c.queued ++ q
  pub writable : d.writable ≡ true
  pub fresh : stay ≡ true → IsFresh c → IsFresh d
  pub closed : stay ≡ false → (d.receiving ≡ false) × (d.parser ≡ false)

pub Since-here : (c : Conn) → c.writable ≡ true → Since c [] [] [] true c
Since-here c w = record {
  answers = sym (append-nil c.answers);
  waiting = sym (append-nil c.waiting);
  queued = sym (append-nil c.queued);
  writable = w;
  fresh = λ g f. f;
  closed = λ g. absurd (cc g);
}

pub Since-touch :
    {c d : Conn} {s : List Bytes} {w : List RequestT} {q : List PoolTask} {stay : Bool}
    → Since c s w q stay d
    → Since c s w q stay (touch d)
Since-touch {d = d} v = record {
  answers = v.answers;
  waiting = v.waiting;
  queued = v.queued;
  writable = v.writable;
  fresh = λ g f.
      let k : IsFresh d = v.fresh g f in
      record { held = k.held; listens = k.listens; clean = rw (k.clean, k.held) refl };
  closed = v.closed;
}

pub Since-then :
    {c d e : Conn} {s t : List Bytes} {w x : List RequestT} {q r : List PoolTask} {stay : Bool}
    → Since c s w q true d
    → Since d t x r stay e
    → Since c (s ++ t) (w ++ x) (q ++ r) stay e
Since-then {c} {d} {e} {s} {t} {w} {x} {q} {r} u v = record {
  answers = v.answers ∙ ap (λ l. l ++ t) u.answers ∙ append_assoc c.answers s t;
  waiting = v.waiting ∙ ap (λ l. l ++ x) u.waiting ∙ append_assoc c.waiting w x;
  queued = v.queued ∙ ap (λ l. l ++ r) u.queued ∙ append_assoc c.queued q r;
  writable = v.writable;
  fresh = λ g f. v.fresh g (u.fresh refl f);
  closed = v.closed;
}

pub Since-shutdown :
    {c d : Conn} {s : List Bytes} {w : List RequestT} {q : List PoolTask} {stay : Bool}
    → Since c s w q stay d
    → Since c s w q false (shutdown d)
Since-shutdown v = record {
  answers = v.answers;
  waiting = v.waiting;
  queued = v.queued;
  writable = v.writable;
  fresh = λ g f. absurd (cc g);
  closed = λ g. (refl, refl);
}

pub sent-Since :
    (s : Bytes) (keep : Bool) (c : Conn)
    → c.writable ≡ true
    → Since c (s ∷ []) [] [] keep (sent s keep c)
sent-Since s true c w = record {
  answers = refl;
  waiting = sym (append-nil c.waiting);
  queued = sym (append-nil c.queued);
  writable = w;
  fresh = λ g f. record { held = f.held; listens = f.listens; clean = f.clean };
  closed = λ g. absurd (cc g);
}
sent-Since s false c w = record {
  answers = refl;
  waiting = sym (append-nil c.waiting);
  queued = sym (append-nil c.queued);
  writable = w;
  fresh = λ g f. absurd (cc g);
  closed = λ g. (refl, refl);
}

pub deferred-Since :
    (m : RequestT) (keep : Bool) (c : Conn)
    → c.writable ≡ true
    → Since c [] (m ∷ []) [] true (effect later keep m c)
deferred-Since m keep c w = record {
  answers = sym (append-nil c.answers);
  waiting = refl;
  queued = sym (append-nil c.queued);
  writable = w;
  fresh = λ g f. record { held = f.held; listens = f.listens; clean = f.clean };
  closed = λ g. absurd (cc g);
}

pub scheduled-Since :
    (controller action : Bytes) (m : RequestT) (keep : Bool) (c : Conn)
    → c.writable ≡ true
    → Since c [] []
        ((controller, action, m) ∷ [])
        true
        (effect (scheduled controller action) keep m c)
scheduled-Since controller action m keep c w = record {
  answers = sym (append-nil c.answers);
  waiting = sym (append-nil c.waiting);
  queued = refl;
  writable = w;
  fresh = λ g f. record { held = f.held; listens = f.listens; clean = f.clean };
  closed = λ g. absurd (cc g);
}
