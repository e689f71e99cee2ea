-- ===== src/RawClient/Framing.antt =====
-- A frame is read as it was packed, whatever comes behind it.
use fiberproxy.Prelude.{
  ℕ, ◌/◌, ◌%◌, ◌^◌, ◌<◌, true, ◌∷◌, ◌++◌, some, Bytes, ◌≡◌, ap, arith, ◌∙◌, leb, length,
  length-append, take-append, drop-append,
}
use fiberproxy.RawClient.{ntohl, pack, read_bytes, read_frame}

ntohl-htonl :
    (n : ℕ)
    → n < 4294967296
    → ntohl (n / 16777216 % 256) (n / 65536 % 256) (n / 256 % 256) (n % 256) ≡ n
ntohl-htonl n h = omega arith

length_le : (xs ys : Bytes) → leb (length xs) (length (xs ++ ys)) ≡ true
length_le xs ys = ground (arith, length-append xs ys)

read_bytes_append : (xs ys : Bytes) → read_bytes (length xs) (xs ++ ys) ≡ some (xs, ys)
unfolding read_bytes
read_bytes_append xs ys = rw (length_le xs ys, take-append xs ys, drop-append xs ys)

size_fits : (n : ℕ) → n < 4294967296 → n % 2 ^ 32 ≡ n
size_fits n h = omega arith

-- A header that is read as the size of the body.
read_frame_header :
    (a b c d e f g h n : ℕ) (body rest : Bytes)
    → ntohl a b c d ≡ n
    → ntohl e f g h ≡ length body
    → read_frame (a ∷ b ∷ c ∷ d ∷ e ∷ f ∷ g ∷ h ∷ body ++ rest) ≡ some (n, body, rest)
unfolding read_frame
read_frame_header a b c d e f g h n body rest p q =
    rw (ap (λ m. read_bytes m (body ++ rest)) q ∙ read_bytes_append body rest, read_frame)
      (ap (λ m. some (m, body, rest)) p)

-- A frame whose number and size fit in 32 bits is read back as it was packed, and the read stops
-- where the frame ends.
pub read_frame-pack :
    (fid : ℕ) (body rest : Bytes)
    → fid < 4294967296
    → length body < 4294967296
    → read_frame (pack fid body ++ rest) ≡ some (fid, body, rest)
unfolding pack
read_frame-pack fid body rest h k =
    let n = length body % 2 ^ 32 in
    read_frame_header (fid / 16777216 % 256) (fid / 65536 % 256) (fid / 256 % 256) (fid % 256)
      (n / 16777216 % 256) (n / 65536 % 256) (n / 256 % 256) (n % 256) fid body rest
      (ntohl-htonl fid h) (ntohl-htonl n (omega arith) ∙ size_fits (length body) k)
