-- ===== src/Wg/Dump/Roundtrip.antt =====
-- internal/wg/dump.go: the two formats of `wg show`, with one interface, read back.
use wgroster.Prelude.{
  ℕ, ◌^◌, ◌<◌, ◌≡◌, ◌≢◌, refl, sym, ap, ◌∙◌, inl, inr, true, false, Option, none, some, List, [],
  ◌∷◌, ◌++◌, map, Text, txt, text_eq, text_eq→eq, text_discrete, if◌then◌else◌, All, arith,
  Bool-cases,
}
use wgroster.Strings.{split, fields, fields_from, is_space, has_char}
use wgroster.Store.Models.{StatusPeer}
use wgroster.Wg.Config.{decimal, line}
use wgroster.Wg.Config.Lines.{IsOneLine, append-IsOneLine, split-line}
use wgroster.Wg.Dump.{is_key, given, peer_fields, peer_of, add_peer, parse_lines, parse_dump}
use wgroster.Wg.Dump.Printed.{
  IsField, NoSpace, fields_from-tab, fields_from-end, parse_int-decimal, decimal-IsField,
}

-- A value that can be missing.
abbrev shown : Text → Text
shown t = if text_eq t [] then txt "(none)" else t

-- A peer as wg knows it: with its preshared key and its keepalive, which the parser drops.
pub record WgPeer : Type 0 where
  pub peer : StatusPeer
  pub psk : Text
  pub keepalive : Text

-- Fields joined by tabs.
unfoldable pub tabbed : Text → List Text → Text
tabbed f [] = f
tabbed f (g ∷ gs) = f ++ 9 ∷ tabbed g gs

abbrev pub peer_values : WgPeer → List Text
peer_values w =
    w.psk
    ∷ shown w.peer.remote_endpoint
    ∷ shown w.peer.allowed_ips
    ∷ decimal w.peer.last_handshake
    ∷ decimal w.peer.rx
    ∷ decimal w.peer.tx
    ∷ w.keepalive
    ∷ []

-- wg show <iface> dump has no name before a line, wg show all dump has that of the interface.
unfoldable pub dump_line : Option Text → Text → List Text → Text
dump_line none f fs = line (tabbed f fs)
dump_line (some name) f fs = line (tabbed name (f ∷ fs))

unfoldable pub peer_lines : Option Text → List WgPeer → Text
peer_lines iface [] = []
peer_lines iface (w ∷ ws) = dump_line iface w.peer.public_key (peer_values w) ++ peer_lines iface ws

-- The line of the interface itself, and those of its peers.
unfoldable pub dump : Option Text → Text → Text → Text → Text → List WgPeer → Text
dump iface private_key public_key port fwmark ws =
    dump_line iface private_key (public_key ∷ port ∷ fwmark ∷ []) ++ peer_lines iface ws

-- What wg prints for a value that is there.
abbrev IsShown : Text → Type 0
IsShown t = IsField (shown t) × (t ≢ txt "(none)")

pub record IsPrintable (w : WgPeer) : Type 0 where
  pub key : is_key w.peer.public_key ≡ true
  pub key_field : IsField w.peer.public_key
  pub psk : IsField w.psk
  pub remote : IsShown w.peer.remote_endpoint
  pub allowed : IsShown w.peer.allowed_ips
  pub handshake : w.peer.last_handshake < 2 ^ 63
  pub rx : w.peer.rx < 2 ^ 63
  pub tx : w.peer.tx < 2 ^ 63
  pub keepalive : IsField w.keepalive
  pub unassigned : w.peer.endpoint_id ≡ 0

-- The name of an interface, which is no key.
abbrev pub IsInterface : Option Text → Type 0
IsInterface none = Unit
IsInterface (some name) = IsField name × (is_key name ≡ false)

given-shown : (t : Text) → t ≢ txt "(none)" → given (shown t) ≡ t
unfolding text_discrete
given-shown t ne = elim (Bool-cases (text_eq t [])) [
  | inl e ↦ rw e (sym (text_eq→eq t [] e))
  | inr e ↦ rw e (elim (Bool-cases (text_eq t (txt "(none)"))) [
    | inl f ↦ absurd (ne (text_eq→eq t (txt "(none)") f))
    | inr f ↦ rw f refl
  ])
]

fields-tabbed :
    (f : Text) (fs : List Text) → IsField f → All IsField fs → fields (tabbed f fs) ≡ f ∷ fs
unfolding fields tabbed
fields-tabbed f [] h k = fields_from-end f h
fields-tabbed f (g ∷ gs) h k =
    fields_from-tab f (tabbed g gs) h ∙ ap (λ xs. f ∷ xs) (fields-tabbed g gs k.0 k.1)

field-IsOneLine : (f : Text) → NoSpace f → IsOneLine f
unfolding has_char is_space
field-IsOneLine [] h = refl
field-IsOneLine (c ∷ cs) h = ground (arith, h.0, field-IsOneLine cs h.1)

no_space : (f : Text) → IsField f → NoSpace f
no_space [] h = absurd h
no_space (c ∷ cs) h = h

tabbed-IsOneLine :
    (f : Text) (fs : List Text) → IsField f → All IsField fs → IsOneLine (tabbed f fs)
unfolding tabbed has_char
tabbed-IsOneLine f [] h k = field-IsOneLine f (no_space f h)
tabbed-IsOneLine f (g ∷ gs) h k =
    append-IsOneLine f (9 ∷ tabbed g gs) (field-IsOneLine f (no_space f h))
      (tabbed-IsOneLine g gs k.0 k.1)

-- A printed line is read as its values, without the name of the interface.
dump_line-parse_lines :
    (iface : Option Text) (f : Text) (fs : List Text) (rest : Text)
    → IsInterface iface
    → is_key f ≡ true
    → IsField f
    → All IsField fs
    → parse_lines (split 10 (dump_line iface f fs ++ rest))
      ≡ add_peer (peer_of (f ∷ fs)) (parse_lines (split 10 rest))
unfolding dump_line parse_lines peer_fields
dump_line-parse_lines none f fs rest i k h a =
    ap parse_lines (split-line (tabbed f fs) rest (tabbed-IsOneLine f fs h a))
    ∙ ap (λ xs. add_peer (peer_of (peer_fields xs)) (parse_lines (split 10 rest)))
        (fields-tabbed f fs h a)
    ∙ rw k refl
dump_line-parse_lines (some name) f fs rest (i, n) k h a =
    ap parse_lines
      (split-line (tabbed name (f ∷ fs)) rest (tabbed-IsOneLine name (f ∷ fs) i (h, a)))
    ∙ ap (λ xs. add_peer (peer_of (peer_fields xs)) (parse_lines (split 10 rest)))
        (fields-tabbed name (f ∷ fs) i (h, a))
    ∙ rw n refl

values-IsField : (w : WgPeer) → IsPrintable w → All IsField (peer_values w)
values-IsField w p = (
  p.psk,
  (
    p.remote.0,
    (
      p.allowed.0,
      (
        decimal-IsField w.peer.last_handshake,
        (decimal-IsField w.peer.rx, (decimal-IsField w.peer.tx, (p.keepalive, tt))),
      ),
    ),
  ),
)

same_peer : (p : StatusPeer) → p.endpoint_id ≡ 0 → record p { endpoint_id = 0 } ≡ p
same_peer p e = ap (λ (n : ℕ). record p { endpoint_id = n }) (sym e)

peer_of-values :
    (w : WgPeer) → IsPrintable w → peer_of (w.peer.public_key ∷ peer_values w) ≡ some w.peer
unfolding peer_of
peer_of-values w p =
    rw
      (
        given-shown w.peer.remote_endpoint p.remote.1,
        given-shown w.peer.allowed_ips p.allowed.1,
        parse_int-decimal w.peer.last_handshake p.handshake,
        parse_int-decimal w.peer.rx p.rx,
        parse_int-decimal w.peer.tx p.tx,
      )
      (ap some (same_peer w.peer p.unassigned))

peer_lines-parse_lines :
    (iface : Option Text) (ws : List WgPeer)
    → IsInterface iface
    → All IsPrintable ws
    → parse_lines (split 10 (peer_lines iface ws)) ≡ map (λ (w : WgPeer). w.peer) ws
unfolding peer_lines parse_lines split fields fields_from peer_fields peer_of
peer_lines-parse_lines iface [] i h = refl
peer_lines-parse_lines iface (w ∷ ws) i h =
    dump_line-parse_lines iface w.peer.public_key (peer_values w) (peer_lines iface ws) i h.0.key
      h.0.key_field (values-IsField w h.0)
    ∙ ap (λ o. add_peer o (parse_lines (split 10 (peer_lines iface ws)))) (peer_of-values w h.0)
    ∙ ap (λ ps. w.peer ∷ ps) (peer_lines-parse_lines iface ws i h.1)

-- ParseDump returns exactly the peers of what wg show prints, with or without the name of the
-- interface, when keys have the shape of a key, no field has a space or is empty, the name of
-- the interface is not like a key, and the times and counters are below 2 ^ 63.
pub parse_dump-dump :
    (iface : Option Text) (private_key public_key port fwmark : Text) (ws : List WgPeer)
    → IsInterface iface
    → is_key private_key ≡ true
    → IsField private_key
    → All IsField (public_key ∷ port ∷ fwmark ∷ [])
    → All IsPrintable ws
    → parse_dump (dump iface private_key public_key port fwmark ws)
      ≡ map (λ (w : WgPeer). w.peer) ws
unfolding parse_dump dump peer_of
parse_dump-dump iface private_key public_key port fwmark ws i k f a h =
    dump_line-parse_lines iface private_key (public_key ∷ port ∷ fwmark ∷ []) (peer_lines iface ws)
      i k f a
    ∙ peer_lines-parse_lines iface ws i h
