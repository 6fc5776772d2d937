-- ===== src/Wg/Config/Client.antt =====
-- internal/wg/config.go: what a reader finds in a client configuration.
use wgroster.Prelude.{
  ◌≡◌, refl, inl, inr, Bool, not, Option, none, some, List, [], ◌∷◌, ◌++◌, Text, txt, text_eq, ltb,
  if◌then◌else◌, first, All, arith, Bool-cases,
}
use wgroster.Strings.{has_char}
use wgroster.Store.Models.{Machine, Endpoint}
use wgroster.Wg.Config.{
  sanitize_comment, decimal, prefix_or_empty, dns_line, mtu_line, allowed_or_default,
  keepalive_line, client_peer, client_peers, client_config,
}
use wgroster.Wg.Config.Lines.{
  IsOneLine, Reads, line-Reads, nil-Reads, setting-Reads, comment-Reads, break-Reads, setting,
  number_setting, number-Reads, map-IsOneLine, prefix-IsOneLine, Reads-all, kept, ◌then◌,
  directives, decimal-IsOneLine, IsPlainMachine, IsPlainEndpoint,
}

-- The directives of a peer section of a client.
pub peer_directives : Endpoint → List Text
unfolding setting number_setting
peer_directives e =
    txt "[Peer]"
    ∷ setting (txt "PublicKey") e.public_key
    ∷ setting (txt "Endpoint") e.host_port
    ∷ setting (txt "AllowedIPs") (allowed_or_default e.allowed_ips)
    ∷ number_setting (txt "PersistentKeepalive") e.persistent_keepalive

allowed-IsOneLine : (list : Text) → IsOneLine list → IsOneLine (allowed_or_default list)
unfolding allowed_or_default has_char
allowed-IsOneLine list h = ground arith

client_peer-Reads : (e : Endpoint) → IsPlainEndpoint e → Reads (client_peer e) (peer_directives e)
unfolding peer_directives client_peer setting has_char keepalive_line kept
client_peer-Reads e p =
    break-Reads
    then line-Reads (txt "[Peer]") refl
    then comment-Reads (b' ' ∷ sanitize_comment e.name) (map-IsOneLine e.name)
    then setting-Reads (txt "PublicKey = ") e.public_key refl refl p.public_key
    then setting-Reads (txt "Endpoint = ") e.host_port refl refl p.host_port
    then setting-Reads (txt "AllowedIPs = ") (allowed_or_default e.allowed_ips) refl refl
        (allowed-IsOneLine e.allowed_ips p.allowed_ips)
    then number-Reads (txt "PersistentKeepalive") e.persistent_keepalive refl refl

abbrev pub has_dns : Endpoint → Bool
has_dns e = not (text_eq e.dns [])

abbrev pub has_mtu : Endpoint → Bool
has_mtu e = ltb 0 e.mtu

-- The directives of the interface that the first endpoint with a value gives.
pub dns_directive : Option Endpoint → List Text
unfolding setting
dns_directive none = []
dns_directive (some e) = setting (txt "DNS") e.dns ∷ []

pub mtu_directive : Option Endpoint → List Text
unfolding number_setting
mtu_directive none = []
mtu_directive (some e) = setting (txt "MTU") (decimal e.mtu) ∷ []

dns_line-Reads :
    (es : List Endpoint)
    → All IsPlainEndpoint es
    → Reads (dns_line es) (dns_directive (first has_dns es))
unfolding dns_line dns_directive setting has_char
dns_line-Reads [] h = nil-Reads
dns_line-Reads (e ∷ es) h = elim (Bool-cases (text_eq e.dns [])) [
  | inl x ↦ rw x (dns_line-Reads es h.1)
  | inr x ↦ rw x (setting-Reads (txt "DNS = ") e.dns refl refl h.0.dns)
]

mtu_line-Reads : (es : List Endpoint) → Reads (mtu_line es) (mtu_directive (first has_mtu es))
unfolding mtu_line mtu_directive setting has_char
mtu_line-Reads [] = nil-Reads
mtu_line-Reads (e ∷ es) = elim (Bool-cases (ltb 0 e.mtu)) [
  | inr x ↦ rw x (mtu_line-Reads es)
  | inl x ↦ rw x (setting-Reads (txt "MTU = ") (decimal e.mtu) refl refl (decimal-IsOneLine e.mtu))
]

pub peers_directives : List Endpoint → List Text
peers_directives [] = []
peers_directives (e ∷ es) = peer_directives e ++ peers_directives es

client_peers-Reads :
    (es : List Endpoint) → All IsPlainEndpoint es → Reads (client_peers es) (peers_directives es)
unfolding client_peers peers_directives
client_peers-Reads [] h = nil-Reads
client_peers-Reads (e ∷ es) h = client_peer-Reads e h.0 then client_peers-Reads es h.1

-- What a client configuration says.
pub client_directives : Machine → List Endpoint → List Text
unfolding setting
client_directives m es =
    txt "[Interface]"
      ∷ txt "PrivateKey = <YOUR_PRIVATE_KEY>"
      ∷ setting (txt "Address") (prefix_or_empty m.address)
      ∷ []
    ++ dns_directive (first has_dns es)
    ++ mtu_directive (first has_mtu es)
    ++ peers_directives es

pub client_config-directives :
    (m : Machine) (es : List Endpoint)
    → IsPlainMachine m
    → All IsPlainEndpoint es
    → directives (client_config m es) ≡ client_directives m es
unfolding client_config client_directives has_char kept setting
client_config-directives m es h k = Reads-all _ _ (
    line-Reads (txt "[Interface]") refl
    then comment-Reads (txt " Replace with the private key generated on this machine") refl
    then line-Reads (txt "PrivateKey = <YOUR_PRIVATE_KEY>") refl
    then setting-Reads (txt "Address = ") (prefix_or_empty m.address) refl refl
        (prefix-IsOneLine m.address h.address)
    then dns_line-Reads es k
    then mtu_line-Reads es
    then client_peers-Reads es k)
