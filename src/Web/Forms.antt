-- ===== src/Web/Forms.antt =====
-- internal/web/helpers.go: the checks of submitted values.
pub mod Lines
use wgroster.Prelude.{
  ◌++◌, ℕ, ◌+◌, Bool, true, false, not, ◌&&◌, ◌||◌, Option, none, some, List, [], ◌∷◌, Text,
  text_eq, ltb, leb, ◌==◌, if◌then◌else◌, length, any,
}
use wgroster.Strings.{
  split, trim_space, has_char, byte_len, ends_with, is_control, is_digit, without_last, trim_suffix,
  split_host_port, parse_int, Number, positive, negative, ParsedInt, syntax_error, range_error,
  parsed,
}
use wgroster.Netip.{Addr, Prefix, Netip, addr_eq, contains}

-- isBase64 of validPublicKey.
abbrev pub is_base64 : ℕ → Bool
is_base64 c =
    (leb b'A' c && leb c b'Z') || (leb b'a' c && leb c b'z') || is_digit c || c == b'+' || c == b'/'

-- validPublicKey on the trimmed text.
unfoldable pub key_shape : Text → Bool
key_shape k =
    if not (byte_len k == 44) || not (ends_with b'=' k)
    then false
    else not (any (λ c. not (is_base64 c)) (without_last k))

-- validPublicKey.
unfoldable pub valid_public_key : Text → Bool
unfolding key_shape
valid_public_key k = key_shape (trim_space k)

abbrev pub breaks_line : ℕ → Bool
breaks_line r = r == 10 || r == 13 || is_control r

-- hasControlChar.
unfoldable pub has_control_char : Text → Bool
has_control_char s = any breaks_line s

-- maxNameLen.
abbrev pub max_name_len : ℕ
max_name_len = 128

-- validName.
unfoldable pub valid_name : Text → Bool
valid_name s =
    if text_eq (trim_space s) [] || ltb max_name_len (length s)
    then false
    else not (any breaks_line s)

abbrev pub in_range : ℕ → ℕ → ParsedInt → Bool
in_range lo hi (parsed (positive n)) = leb lo n && leb n hi
in_range lo hi (parsed (negative n)) = false
in_range lo hi syntax_error = false
in_range lo hi (range_error n) = false

-- validHostPort.
unfoldable pub valid_host_port : Text → Bool
valid_host_port hp = elim (split_host_port hp) [
  | none ↦ false
  | some (host, port) ↦ not (text_eq host []) && in_range 1 65535 (parse_int port)
]

-- The characters of a label; the first and the last cannot be a dash.
abbrev is_alnum : ℕ → Bool
is_alnum r = (leb b'a' r && leb r b'z') || (leb b'A' r && leb r b'Z') || is_digit r

label_rest : Text → Bool
label_rest [] = true
label_rest (r ∷ []) = is_alnum r
label_rest (r ∷ s ∷ ss) = (is_alnum r || r == b'-') && label_rest (s ∷ ss)

is_label : Text → Bool
unfolding label_rest
is_label [] = false
is_label (r ∷ rs) = leb (byte_len (r ∷ rs)) 63 && is_alnum r && label_rest (r ∷ rs)

-- isHostname.
unfoldable pub is_hostname : Text → Bool
unfolding is_label
is_hostname s =
    if ltb 253 (byte_len s)
    then false
    else not (any (λ label. not (is_label label)) (split b'.' (trim_suffix b'.' s)))

module _ (netip : Netip) where
  -- One part of the list of allowedCovers covers the address.
  abbrev pub part_covers : Addr → Text → Bool
  part_covers a part =
      if text_eq part []
      then false
      else if has_char b'/' part
      then elim (netip.parse_prefix part) [ none ↦ false | some p ↦ contains p a ]
      else elim (netip.parse_addr part) [ none ↦ false | some b ↦ addr_eq b a ]

  -- allowedCovers.
  unfoldable pub allowed_covers : Text → Text → Bool
  allowed_covers list addr = elim (netip.parse_addr addr) [
    | none ↦ true
    | some a ↦ any (λ part. part_covers a (trim_space part)) (split b',' list)
  ]

  -- One part of validDNSList.
  abbrev pub is_dns_part : Text → Bool
  is_dns_part part = if text_eq part [] then true else elim (netip.parse_addr part) [
    | some a ↦ true
    | none ↦ any (λ r. not (r == b'.') && not (is_digit r)) part && is_hostname part
  ]

  -- validDNSList.
  unfoldable pub valid_dns_list : Text → Bool
  valid_dns_list list = not (any (λ part. not (is_dns_part (trim_space part))) (split b',' list))

-- parseEndpointIDs. A negative id is read as 0: no row has either.
abbrev pub id_of : ParsedInt → List ℕ
id_of (parsed (positive n)) = n ∷ []
id_of (parsed (negative n)) = 0 ∷ []
id_of syntax_error = []
id_of (range_error n) = []

unfoldable pub parse_endpoint_ids : List Text → List ℕ
parse_endpoint_ids [] = []
parse_endpoint_ids (v ∷ vs) = id_of (parse_int v) ++ parse_endpoint_ids vs
