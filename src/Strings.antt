-- ===== src/Strings.antt =====
-- The functions of Go's strings, strconv, unicode and net packages that the program calls, over code
-- points.
use mathlib.Core.Option
use wgroster.Prelude.{
  ℕ, ◌+◌, ◌-◌, ◌*◌, ◌^◌, Option, none, some, text_eq, not, Bool, true, false, ◌&&◌, ◌||◌, List, [],
  ◌∷◌, ◌++◌, Text, leb, ltb, ◌==◌, if◌then◌else◌,
}

-- unicode.IsSpace.
unfoldable pub is_space : ℕ → Bool
is_space c =
    (leb 9 c && leb c 13)
    || c == 32
    || c == 0x85
    || c == 0xa0
    || c == 0x1680
    || (leb 0x2000 c && leb c 0x200a)
    || c == 0x2028
    || c == 0x2029
    || c == 0x202f
    || c == 0x205f
    || c == 0x3000

-- unicode.IsControl.
unfoldable pub is_control : ℕ → Bool
is_control c = ltb c 32 || (leb 0x7f c && ltb c 0xa0)

-- Adds a code point to the first part.
abbrev pub onto_first : ℕ → List Text → List Text
onto_first c [] = (c ∷ []) ∷ []
onto_first c (p ∷ ps) = (c ∷ p) ∷ ps

-- strings.Split at a separator of one character.
unfoldable pub split : ℕ → Text → List Text
split sep [] = [] ∷ []
split sep (c ∷ cs) = let rest = split sep cs in if c == sep then [] ∷ rest else onto_first c rest

unfoldable pub trim_left : Text → Text
trim_left [] = []
trim_left (c ∷ cs) = if is_space c then trim_left cs else c ∷ cs

-- A character before a text whose right end is trimmed.
abbrev pub before_trimmed : ℕ → Text → Text
before_trimmed c [] = if is_space c then [] else c ∷ []
before_trimmed c (d ∷ ds) = c ∷ d ∷ ds

unfoldable pub trim_right : Text → Text
trim_right [] = []
trim_right (c ∷ cs) = before_trimmed c (trim_right cs)

-- strings.TrimSpace.
unfoldable pub trim_space : Text → Text
unfolding trim_left trim_right
trim_space s = trim_right (trim_left s)

-- strings.Contains for one character.
unfoldable pub has_char : ℕ → Text → Bool
has_char c [] = false
has_char c (d ∷ ds) = if d == c then true else has_char c ds

-- The bytes that UTF-8 takes for a code point, and for a text: Go's len.
abbrev pub rune_len : ℕ → ℕ
rune_len c = if ltb c 0x80 then 1 else if ltb c 0x800 then 2 else if ltb c 0x10000 then 3 else 4

unfoldable pub byte_len : Text → ℕ
byte_len [] = 0
byte_len (c ∷ cs) = rune_len c + byte_len cs

-- strings.HasSuffix for one character.
unfoldable pub ends_with : ℕ → Text → Bool
ends_with c [] = false
ends_with c (d ∷ []) = d == c
ends_with c (d ∷ e ∷ es) = ends_with c (e ∷ es)

-- strings.Fields: the runs of characters that are not spaces. A nonempty current field is closed
-- by a space or by the end.
abbrev pub close_field : Text → List Text → List Text
close_field [] rest = rest
close_field (c ∷ cs) rest = (c ∷ cs) ∷ rest

unfoldable pub fields_from : Text → Text → List Text
fields_from current [] = close_field current []
fields_from current (c ∷ cs) =
    let open_field = fields_from (current ++ c ∷ []) cs in
    let closed = close_field current (fields_from [] cs) in
    if is_space c then closed else open_field

unfoldable pub fields : Text → List Text
unfolding fields_from
fields s = fields_from [] s

-- strings.TrimSuffix for one character.
unfoldable pub trim_suffix : ℕ → Text → Text
trim_suffix c [] = []
trim_suffix c (d ∷ []) = if d == c then [] else d ∷ []
trim_suffix c (d ∷ e ∷ es) = d ∷ trim_suffix c (e ∷ es)

-- The text without its last character.
unfoldable pub without_last : Text → Text
without_last [] = []
without_last (c ∷ []) = []
without_last (c ∷ d ∷ ds) = c ∷ without_last (d ∷ ds)

-- The parts before and after the last occurrence of a character, which strings.LastIndexByte finds.
unfoldable pub cut_last : ℕ → Text → Option (Text × Text)
cut_last sep [] = none
cut_last sep (c ∷ cs) = elim (cut_last sep cs) [
  | some (b, a) ↦ some (c ∷ b, a)
  | none ↦ if c == sep then some ([], cs) else none
]

-- The parts before and after the first occurrence.
unfoldable pub cut_first : ℕ → Text → Option (Text × Text)
cut_first sep [] = none
cut_first sep (c ∷ cs) =
    let rest = cut_first sep cs in
    if c == sep then some ([], cs) else elim rest [ none ↦ none | some (b, a) ↦ some (c ∷ b, a) ]

abbrev pub is_digit : ℕ → Bool
is_digit c = leb b'0' c && leb c b'9'

-- The value of decimal digits after those read; none for another character.
unfoldable pub digits_from : ℕ → Text → Option ℕ
digits_from n [] = some n
digits_from n (c ∷ cs) =
    let rest = digits_from (n * 10 + (c - b'0')) cs in if is_digit c then rest else none

pub data Number : Type 0 where
  positive negative : ℕ → Number

-- The digits after a sign; there must be one.
unfoldable pub digits : Text → Option ℕ
unfolding digits_from
digits [] = none
digits (c ∷ cs) = digits_from 0 (c ∷ cs)

unfoldable pub signed : Text → Option Number
unfolding digits
signed [] = none
signed (c ∷ cs) =
    if c == b'-'
    then Option.map negative (digits cs)
    else if c == b'+'
    then Option.map positive (digits cs)
    else Option.map positive (digits (c ∷ cs))

abbrev pub in_int64 : Number → Bool
in_int64 (positive n) = ltb n (2 ^ 63)
in_int64 (negative n) = leb n (2 ^ 63)

-- What strconv.ParseInt at base 10 and 64 bits ends with; Atoi is the same on a 64-bit machine.
pub data ParsedInt : Type 0 where
  syntax_error : ParsedInt
  parsed : Number → ParsedInt
  -- With the nearest number of 64 bits, which ParseInt returns beside the error.
  range_error : Number → ParsedInt

abbrev pub nearest_int64 : Number → Number
nearest_int64 (positive n) = positive (2 ^ 63 - 1)
nearest_int64 (negative n) = negative (2 ^ 63)

unfoldable pub parse_int : Text → ParsedInt
unfolding signed
parse_int s = elim (signed s) [
  | none ↦ syntax_error
  | some n ↦ if in_int64 n then parsed n else range_error (nearest_int64 n)
]

-- net.SplitHostPort; none is its error.
abbrev pub bracketed : Text → Text → Option (Text × Text)
bracketed before port = elim (cut_first b']' before) [
  | none ↦ none
  | some (host, rest) ↦
      if not (text_eq rest []) || has_char b'[' host || has_char b'[' port || has_char b']' port
      then none
      else some (host, port)
]

unfoldable pub host_port_of : Text → Text → Option (Text × Text)
host_port_of [] port = if has_char b'[' port || has_char b']' port then none else some ([], port)
host_port_of (c ∷ cs) port =
    if c == b'['
    then bracketed cs port
    else if has_char b':' (c ∷ cs)
        || has_char b'[' (c ∷ cs ++ port)
        || has_char b']' (c ∷ cs ++ port)
    then none
    else some (c ∷ cs, port)

unfoldable pub split_host_port : Text → Option (Text × Text)
unfolding host_port_of cut_last cut_first has_char
split_host_port hp = elim (cut_last b':' hp) [
  | none ↦ none
  | some (before, port) ↦ host_port_of before port
]

-- strings.CutPrefix; none is a text without the prefix.
unfoldable pub cut_prefix : Text → Text → Option Text
cut_prefix [] s = some s
cut_prefix (c ∷ cs) [] = none
cut_prefix (c ∷ cs) (d ∷ ds) = let rest = cut_prefix cs ds in if c == d then rest else none
