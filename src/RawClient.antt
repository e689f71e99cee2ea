-- ===== src/RawClient.antt =====
-- source/core/forward-manager/FibpClient.cpp, FibpRawClient: a connection that many fibers share,
-- with numbered requests. A future is a key of `heap`, and `future_list` has the futures that wait
-- for the answer to a number. The raw protocol has a header of two big-endian 32-bit words, the
-- number and the size of the body.
pub mod Framing
pub mod Waiting
pub mod Answers
pub mod Steps
use fiberproxy.Prelude.{
  ℕ, zero, suc, ◌+◌, ◌*◌, ◌/◌, ◌%◌, ◌^◌, Bool, true, false, List, [], ◌∷◌, ◌++◌, Option, none, some,
  Bytes, if◌then◌else◌, leb, length, take, drop, lookup, insert, erase, nat_key,
}
use fiberproxy.ClientFuture.{Future, new_future, set_result}

pub record RawClient : Type 0 where
  pub fid : ℕ
  pub future_list : List (ℕ × ℕ)
  pub heap : List (ℕ × Future)
  -- the reading fiber runs
  pub reading : Bool

-- The bytes of htonl(n), and ntohl of four bytes.
abbrev pub htonl : ℕ → Bytes
htonl n = n / 16777216 % 256 ∷ n / 65536 % 256 ∷ n / 256 % 256 ∷ n % 256 ∷ []

abbrev pub ntohl : ℕ → ℕ → ℕ → ℕ → ℕ
ntohl a b c d = a * 16777216 + b * 65536 + c * 256 + d

abbrev pub update : ℕ → (Future → Future) → List (ℕ × Future) → List (ℕ × Future)
update h g heap = elim (lookup h heap) [ none ↦ heap | some f ↦ insert h (g f) heap ]

-- A number that nobody waits for has the null future, which is skipped and erased.
unfoldable pub set_response : ℕ → Bytes → Bool → Bool → RawClient → RawClient
set_response msgid rsp is_success can_retry c = elim (lookup msgid c.future_list) [
  | none ↦ record c { future_list = erase msgid c.future_list }
  | some h ↦ record c {
    future_list = erase msgid c.future_list;
    heap = update h (set_result rsp is_success can_retry) c.heap;
  }
]

unfoldable pub fail_all : Bytes → List (ℕ × ℕ) → List (ℕ × Future) → List (ℕ × Future)
fail_all errinfo [] heap = heap
fail_all errinfo ((msgid, h) ∷ l) heap =
    fail_all errinfo l (update h (set_result errinfo false true) heap)

unfoldable pub set_all_error : Bytes → RawClient → RawClient
unfolding fail_all
set_all_error errinfo c = record c {
  heap = fail_all errinfo c.future_list c.heap;
  future_list = [];
}

unfoldable pub pack : ℕ → Bytes → Bytes
pack fid reqdata = htonl fid ++ htonl (length reqdata % 2 ^ 32) ++ reqdata

-- send_request up to the send: the number, which wraps around, the bytes for the socket, and the
-- new future `h`
unfoldable pub begin_request : ℕ → Bytes → RawClient → RawClient × ℕ × Bytes
unfolding pack
begin_request h reqdata c =
    let fid = (c.fid + 1) % 2 ^ 32 in
    (
      record c {
        fid = fid;
        future_list = insert fid h c.future_list;
        heap = insert h new_future c.heap;
      },
      fid,
      pack fid reqdata,
    )

-- send_request behind the send, with what send_data returned; other fibers have run meanwhile
unfoldable pub end_request : ℕ → ℕ → Bool → RawClient → RawClient × Option ℕ
end_request msgid h true c = (record c { reading = true }, some h)
end_request msgid h false c = (record c { future_list = erase msgid c.future_list }, none)

-- async_read of `n` bytes from what the peer sends until the connection fails
unfoldable pub read_bytes : ℕ → Bytes → Option (Bytes × Bytes)
read_bytes n s = if leb n (length s) then some (take n s, drop n s) else none

-- a header and a body
unfoldable pub read_frame : Bytes → Option (ℕ × Bytes × Bytes)
read_frame (a ∷ b ∷ c ∷ d ∷ e ∷ f ∷ g ∷ h ∷ s) = elim (read_bytes (ntohl e f g h) s) [
  | none ↦ none
  | some (body, rest) ↦ some (ntohl a b c d, body, rest)
]
read_frame _ = none

-- The reading fiber on all that the peer sends until a read fails with `message`. A frame has eight
-- bytes or more, so that `fuel` is enough when it is above the number of bytes.
unfoldable pub handle_read : ℕ → Bytes → Bytes → RawClient → RawClient
handle_read zero message s c = c
handle_read (suc fuel) message s c = elim (read_frame s) [
  | none ↦ let c' = set_all_error message c in record c' { reading = false }
  | some (seq, rsp, rest) ↦ handle_read fuel message rest (set_response seq rsp true false c)
]
