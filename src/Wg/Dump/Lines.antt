-- ===== src/Wg/Dump/Lines.antt =====
-- internal/wg/dump.go: the public keys that a dump gives.
use wgroster.Prelude.{
  ℕ, ◌≡◌, refl, inl, inr, false, List, [], ◌∷◌, ◌++◌, Text, All, arith, Bool-cases,
}
use wgroster.Strings.{split, fields, fields_from, close_field, is_space, has_char}
use wgroster.Store.Models.{StatusPeer}
use wgroster.Wg.Dump.{is_key, peer_fields, peer_of, add_peer, parse_lines, parse_dump}
use wgroster.Wg.Config.Lines.{IsOneLine, append-IsOneLine}

close_field-OneLine :
    (current : Text) (rest : List Text)
    → IsOneLine current
    → All IsOneLine rest
    → All IsOneLine (close_field current rest)
close_field-OneLine [] rest h k = k
close_field-OneLine (c ∷ cs) rest h k = (h, k)

not_space-IsOneLine : (c : ℕ) → is_space c ≡ false → IsOneLine (c ∷ [])
unfolding is_space has_char
not_space-IsOneLine c e = ground arith

-- A line break is a space, so no field has one.
fields_from-OneLine : (current s : Text) → IsOneLine current → All IsOneLine (fields_from current s)
unfolding fields_from has_char
fields_from-OneLine current [] h = close_field-OneLine current [] h tt
fields_from-OneLine current (c ∷ cs) h = elim (Bool-cases (is_space c)) [
  | inl e ↦ rw e (close_field-OneLine current _ h (fields_from-OneLine [] cs refl))
  | inr e ↦ rw e (
      fields_from-OneLine (current ++ c ∷ []) cs
        (append-IsOneLine current (c ∷ []) h (not_space-IsOneLine c e)))
]

peer_fields-OneLine : (fs : List Text) → All IsOneLine fs → All IsOneLine (peer_fields fs)
unfolding peer_fields
peer_fields-OneLine [] h = tt
peer_fields-OneLine (f ∷ fs) h = elim (Bool-cases (is_key f)) [ inl e ↦ rw e h | inr e ↦ rw e h.1 ]

abbrev pub HasPlainKey : StatusPeer → Type 0
HasPlainKey p = IsOneLine p.public_key

add_peer-OneLine :
    (fs : List Text) (ps : List StatusPeer)
    → All IsOneLine fs
    → All HasPlainKey ps
    → All HasPlainKey (add_peer (peer_of fs) ps)
unfolding peer_of
add_peer-OneLine (a ∷ b ∷ c ∷ d ∷ e ∷ f ∷ g ∷ h ∷ rest) ps o k = (o.0, k)
add_peer-OneLine [] ps o k = k
add_peer-OneLine (a ∷ []) ps o k = k
add_peer-OneLine (a ∷ b ∷ []) ps o k = k
add_peer-OneLine (a ∷ b ∷ c ∷ []) ps o k = k
add_peer-OneLine (a ∷ b ∷ c ∷ d ∷ []) ps o k = k
add_peer-OneLine (a ∷ b ∷ c ∷ d ∷ e ∷ []) ps o k = k
add_peer-OneLine (a ∷ b ∷ c ∷ d ∷ e ∷ f ∷ []) ps o k = k
add_peer-OneLine (a ∷ b ∷ c ∷ d ∷ e ∷ f ∷ g ∷ []) ps o k = k

parse_lines-OneLine : (ls : List Text) → All HasPlainKey (parse_lines ls)
unfolding parse_lines fields has_char
parse_lines-OneLine [] = tt
parse_lines-OneLine (l ∷ ls) =
    add_peer-OneLine (peer_fields (fields l)) (parse_lines ls)
      (peer_fields-OneLine (fields l) (fields_from-OneLine [] l refl)) (parse_lines-OneLine ls)

pub parse_dump-OneLine : (raw : Text) → All HasPlainKey (parse_dump raw)
unfolding parse_dump
parse_dump-OneLine raw = parse_lines-OneLine (split 10 raw)
