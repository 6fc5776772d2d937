-- ===== src/Tests/Dumps.antt =====
-- A dump of one peer, printed and parsed (internal/wg/dump.go).
use wgroster.Prelude.{◌≡◌, refl, none, [], ◌∷◌, txt, arith}
use wgroster.Strings.{is_space}
use wgroster.Wg.Dump.{is_key, parse_dump}
use wgroster.Wg.Dump.Printed.{IsField}
use wgroster.Wg.Dump.Roundtrip.{WgPeer, IsPrintable, dump, parse_dump-dump}
use wgroster.Strings.{byte_len}
use wgroster.Strings.{ends_with}
use wgroster.Prelude.{text_discrete}

abbrev peer : WgPeer
peer = record {
  peer = record {
    endpoint_id = 0;
    public_key = txt "AAAAAAAAAAAAAAAAAAAAAAAAAAAAAAAAAAAAAAAAAAA=";
    last_handshake = 1700000000;
    rx = 12;
    tx = 0;
    remote_endpoint = [];
    allowed_ips = txt "10.8.0.1/32";
  };
  psk = txt "(none)";
  keepalive = txt "off";
}

peer-IsPrintable : IsPrintable peer
unfolding is_key byte_len ends_with is_space text_discrete
peer-IsPrintable = record {
  key = refl;
  key_field = ground arith;
  psk = ground arith;
  remote = (ground arith, λ e. ground arith);
  allowed = (ground arith, λ e. ground arith);
  handshake = omega arith;
  rx = omega arith;
  tx = omega arith;
  keepalive = ground arith;
  unassigned = refl;
}

port-IsField : IsField (txt "51820")
unfolding is_space
port-IsField = ground arith

mark-IsField : IsField (txt "off")
unfolding is_space
mark-IsField = ground arith

parse_dump-dump_example :
    parse_dump
      (dump none peer.peer.public_key peer.peer.public_key (txt "51820") (txt "off") (peer ∷ []))
    ≡ peer.peer ∷ []
parse_dump-dump_example =
    parse_dump-dump none peer.peer.public_key peer.peer.public_key (txt "51820") (txt "off")
      (peer ∷ []) tt peer-IsPrintable.key peer-IsPrintable.key_field
      (peer-IsPrintable.key_field, (port-IsField, (mark-IsField, tt))) (peer-IsPrintable, tt)
