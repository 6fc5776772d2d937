-- ===== src/Wg/Dump.antt =====
-- internal/wg/dump.go: the parser of the dumps that the concentrators upload. A counter that is
-- negative is read as 0: wg prints none.
pub mod Lines
pub mod Printed
pub mod Roundtrip
use wgroster.Prelude.{
  ℕ, Bool, ◌&&◌, Option, none, some, List, [], ◌∷◌, ◌++◌, Text, txt, text_eq, ◌==◌, if◌then◌else◌,
}
use wgroster.Strings.{
  split, fields, byte_len, ends_with, parse_int, Number, positive, negative, ParsedInt,
  syntax_error, range_error, parsed,
}
use wgroster.Store.Models.{StatusPeer}

-- isKey.
unfoldable pub is_key : Text → Bool
is_key s = byte_len s == 44 && ends_with b'=' s

-- A field that is not (none).
abbrev pub given : Text → Text
given f = if text_eq f (txt "(none)") then [] else f

abbrev pub not_negative : Number → ℕ
not_negative (positive n) = n
not_negative (negative n) = 0

-- A handshake that is not a number, or not above 0, is the zero time.
abbrev pub handshake_time : ParsedInt → ℕ
handshake_time (parsed n) = not_negative n
handshake_time syntax_error = 0
handshake_time (range_error n) = 0

-- What ParseInt returns beside its error.
abbrev pub counter : ParsedInt → ℕ
counter (parsed n) = not_negative n
counter syntax_error = 0
counter (range_error n) = not_negative n

-- The fields of a line without the name of the interface.
unfoldable pub peer_fields : List Text → List Text
unfolding is_key
peer_fields [] = []
peer_fields (f ∷ fs) = if is_key f then f ∷ fs else fs

-- A line with fewer than eight fields is no peer.
unfoldable pub peer_of : List Text → Option StatusPeer
peer_of (key ∷ psk ∷ remote ∷ allowed ∷ handshake ∷ rx ∷ tx ∷ keepalive ∷ rest) = some (record {
  endpoint_id = 0;
  public_key = key;
  last_handshake = handshake_time (parse_int handshake);
  rx = counter (parse_int rx);
  tx = counter (parse_int tx);
  remote_endpoint = given remote;
  allowed_ips = given allowed;
})
peer_of _ = none

abbrev pub add_peer : Option StatusPeer → List StatusPeer → List StatusPeer
add_peer none ps = ps
add_peer (some p) ps = p ∷ ps

-- The loop over the lines.
unfoldable pub parse_lines : List Text → List StatusPeer
unfolding peer_fields peer_of
parse_lines [] = []
parse_lines (l ∷ ls) = add_peer (peer_of (peer_fields (fields l))) (parse_lines ls)

-- ParseDump.
unfoldable pub parse_dump : Text → List StatusPeer
unfolding parse_lines
parse_dump raw = parse_lines (split 10 raw)
