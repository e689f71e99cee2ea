-- ===== src/Tests/Sizes.antt =====
-- "64kb" is 65536 bytes.
use fiberproxy.Prelude.{ℕ, Option, none, some, Bytes, codes, ◌≡◌, refl, lookup, bytes_key, bytes_eq}
use fiberproxy.ByteSize.{value, parse_impl, skip_spaces, skip_digits, read_unit, after_digits}
use fiberproxy.ByteSize.Exact.{parse_impl-fit, unit_size}

abbrev no_fraction : Bytes → ℕ → Option ℕ
no_fraction s n = none

skipped : skip_spaces (codes " 64kb") ≡ codes "64kb"
unfolding skip_spaces
skipped = refl

unit_text : after_digits no_fraction (skip_digits (codes "64kb")) ≡ (none, codes "kb")
unfolding skip_digits
unit_text = refl

kilobytes : unit_size (read_unit (codes "kb")) ≡ some 1024
unfolding read_unit lookup bytes_eq
kilobytes = refl

parse_impl-fit_example : parse_impl no_fraction (codes " 64kb") ≡ value 65536
parse_impl-fit_example =
    parse_impl-fit no_fraction (codes " 64kb") b'6' (codes "4kb") (codes "kb") 1024 skipped refl
      unit_text kilobytes
