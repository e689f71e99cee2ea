-- ===== src/Config/Words.antt =====
-- The helpers of XmlConfigParser on texts: validateID and parseEncodingType.
use fiberproxy.Prelude.{
  ℕ, Bool, true, false, ◌&&◌, ◌||◌, not, [], ◌∷◌, Bytes, codes, if◌then◌else◌, ◌==◌, leb, bytes_eq,
}

-- isalnum of the "C" locale
abbrev pub is_alnum : ℕ → Bool
is_alnum c = (leb b'0' c && leb c b'9') || (leb b'a' c && leb c b'z') || (leb b'A' c && leb c b'Z')

-- the loop, which leaves at the first character that is refused
unfoldable pub validate_id : Bytes → Bool
validate_id [] = true
validate_id (c ∷ id) =
    let rest = validate_id id in
    if not (is_alnum c) && not (c == b'-') && not (c == b'_') && not (c == b'.')
    then false
    else rest

-- the encodings of UString that the function names
pub data Encoding : Type 0 where
  utf_8 euc_kr cp949 euc_jp sjis gb2312 big5 iso8859_15 : Encoding

unfoldable pub parse_encoding_type : Bytes → Encoding
parse_encoding_type encoding =
    if bytes_eq encoding (codes "utf-8") || bytes_eq encoding (codes "utf8")
    then utf_8
    else if bytes_eq encoding (codes "euc-kr") || bytes_eq encoding (codes "euckr")
    then euc_kr
    else if bytes_eq encoding (codes "cp949")
    then cp949
    else if bytes_eq encoding (codes "euc-jp") || bytes_eq encoding (codes "eucjp")
    then euc_jp
    else if bytes_eq encoding (codes "sjis")
    then sjis
    else if bytes_eq encoding (codes "gb2312")
    then gb2312
    else if bytes_eq encoding (codes "big5")
    then big5
    else if bytes_eq encoding (codes "iso8859-15")
    then iso8859_15
    else utf_8
