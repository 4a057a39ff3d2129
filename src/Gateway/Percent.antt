-- ===== src/Gateway/Percent.antt =====
-- `decodeURIComponent`, as ECMAScript defines it: pairs of hexadecimal digits behind a percent sign are
-- bytes, and the bytes are UTF-8 without overlong forms and without surrogates.
use multi_tenant_cloud_obser.Base.{
  ℕ, ◌+◌, ◌-◌, ◌*◌, ◌/◌, ◌%◌, Bool, not, ◌&&◌, Option, none, some, List, [], ◌∷◌, ◌++◌, ltb, leb,
  ◌==◌, if◌then◌else◌, Text,
}

abbrev pub hex_value : ℕ → Option ℕ
hex_value c =
    if leb 48 c && leb c 57
    then some (c - 48)
    else if leb 65 c && leb c 70
    then some (c - 55)
    else if leb 97 c && leb c 102
    then some (c - 87)
    else none

-- Where in an escape a text is read: outside, behind the percent sign, or behind the first digit.
pub data Escape : Type 0 where
  outside high : Escape
  low : ℕ → Escape

pub data Piece : Type 0 where
  unit byte : ℕ → Piece

abbrev pub escape_next : Escape → ℕ → Escape
escape_next outside c = if c == b'%' then high else outside
escape_next high c = low c
escape_next (low h) c = outside

abbrev pub push_byte : Option ℕ → Option ℕ → Option (List Piece) → Option (List Piece)
push_byte (some a) (some b) (some ps) = some (byte (16 * a + b) ∷ ps)
push_byte _ _ _ = none

abbrev pub push_unit : ℕ → Option (List Piece) → Option (List Piece)
push_unit c none = none
push_unit c (some ps) = some (unit c ∷ ps)

abbrev pub escape_emit : Escape → ℕ → Option (List Piece) → Option (List Piece)
escape_emit outside c rest = if c == b'%' then rest else push_unit c rest
escape_emit high c rest = rest
escape_emit (low h) c rest = push_byte (hex_value h) (hex_value c) rest

unfoldable pub pieces : Escape → Text → Option (List Piece)
pieces outside [] = some []
pieces high [] = none
pieces (low h) [] = none
pieces s (c ∷ t) = escape_emit s c (pieces (escape_next s c) t)

-- Between code points, or with so many bytes of one to come, its bits so far and the least code point
-- of its length.
pub data Utf8 : Type 0 where
  idle broken : Utf8
  more : ℕ → ℕ → ℕ → Utf8

abbrev pub is_code_point : ℕ → ℕ → Bool
is_code_point least cp = leb least cp && leb cp 0x10ffff && not (leb 0xd800 cp && leb cp 0xdfff)

abbrev pub utf8_next : Utf8 → Piece → Utf8
utf8_next idle (unit c) = idle
utf8_next idle (byte b) =
    if ltb b 0x80
    then idle
    else if leb 0xc0 b && leb b 0xdf
    then more 1 (b - 0xc0) 0x80
    else if leb 0xe0 b && leb b 0xef
    then more 2 (b - 0xe0) 0x800
    else if leb 0xf0 b && leb b 0xf7
    then more 3 (b - 0xf0) 0x10000
    else broken
utf8_next (more k bits least) (byte b) =
    if not (leb 0x80 b && leb b 0xbf)
    then broken
    else if ltb 1 k
    then more (k - 1) (bits * 64 + (b - 0x80)) least
    else if is_code_point least (bits * 64 + (b - 0x80))
    then idle
    else broken
utf8_next (more k bits least) (unit c) = broken
utf8_next broken p = broken

abbrev pub utf16 : ℕ → Text
utf16 cp =
    if ltb cp 0x10000
    then cp ∷ []
    else (0xd800 + (cp - 0x10000) / 1024) ∷ (0xdc00 + (cp - 0x10000) % 1024) ∷ []

abbrev pub utf8_emit : Utf8 → Piece → Text
utf8_emit idle (unit c) = c ∷ []
utf8_emit idle (byte b) = if ltb b 0x80 then b ∷ [] else []
utf8_emit (more k bits least) (byte b) = if ltb 1 k then [] else utf16 (bits * 64 + (b - 0x80))
utf8_emit _ _ = []

abbrev pub prepend : Text → Option Text → Option Text
prepend s none = none
prepend s (some t) = some (s ++ t)

unfoldable pub decode_pieces : Utf8 → List Piece → Option Text
decode_pieces idle [] = some []
decode_pieces broken [] = none
decode_pieces (more k bits least) [] = none
decode_pieces s (p ∷ ps) = prepend (utf8_emit s p) (decode_pieces (utf8_next s p) ps)

-- `none` is the URIError.
abbrev pub decoded : Option (List Piece) → Option Text
decoded none = none
decoded (some ps) = decode_pieces idle ps

unfoldable pub decode_uri_component : Text → Option Text
decode_uri_component t = decoded (pieces outside t)
