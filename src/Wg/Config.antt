-- ===== src/Wg/Config.antt =====
-- internal/wg/config.go: the generated WireGuard configurations, as texts.
pub mod Lines
pub mod Client
pub mod Concentrator
use wgroster.Prelude.{
  ℕ, zero, suc, ◌+◌, ◌/◌, ◌%◌, Bool, not, ◌&&◌, none, some, List, [], ◌∷◌, ◌++◌, map, Text, txt,
  text_eq, ltb, ◌==◌, if◌then◌else◌, true, false,
}
use wgroster.Strings.{has_char, is_control, split_host_port}
use wgroster.Wg.AllowedIps.{default_allowed_ips}
use wgroster.Store.Models.{Machine, Endpoint}

-- strings.Map of SanitizeComment, on one character.
abbrev pub sanitize_rune : ℕ → ℕ
sanitize_rune r = if is_control r then b' ' else r

-- SanitizeComment.
unfoldable pub sanitize_comment : Text → Text
sanitize_comment s = map sanitize_rune s

-- %d: the decimal digits; n + 1 steps are enough.
unfoldable pub decimal_from : ℕ → ℕ → Text
decimal_from zero n = []
decimal_from (suc f) n = elim (ltb n 10) [
  | true ↦ (b'0' + n) ∷ []
  | false ↦ decimal_from f (n / 10) ++ (b'0' + n % 10) ∷ []
]

unfoldable pub decimal : ℕ → Text
unfolding decimal_from
decimal n = decimal_from (suc n) n

-- A text and its line break.
unfoldable pub line : Text → Text
line s = s ++ 10 ∷ []

-- The suffix that both functions add to a stored address.
unfoldable pub host_prefix : Text → Text
host_prefix a = if has_char b'/' a then a else a ++ txt "/32"

unfoldable pub prefix_or_empty : Text → Text
unfolding host_prefix
prefix_or_empty a = if text_eq a [] then [] else host_prefix a

-- The first loop of ClientConfig.
unfoldable pub dns_line : List Endpoint → Text
dns_line [] = []
dns_line (e ∷ es) =
    let rest = dns_line es in if not (text_eq e.dns []) then line (txt "DNS = " ++ e.dns) else rest

-- The second loop.
unfoldable pub mtu_line : List Endpoint → Text
mtu_line [] = []
mtu_line (e ∷ es) =
    let rest = mtu_line es in if ltb 0 e.mtu then line (txt "MTU = " ++ decimal e.mtu) else rest

unfoldable pub allowed_or_default : Text → Text
allowed_or_default list = if text_eq list [] then default_allowed_ips else list

unfoldable pub keepalive_line : ℕ → Text
keepalive_line n = if ltb 0 n then line (txt "PersistentKeepalive = " ++ decimal n) else []

-- The body of the third loop.
unfoldable pub client_peer : Endpoint → Text
client_peer e =
    line []
    ++ line (txt "[Peer]")
    ++ line (txt "# " ++ sanitize_comment e.name)
    ++ line (txt "PublicKey = " ++ e.public_key)
    ++ line (txt "Endpoint = " ++ e.host_port)
    ++ line (txt "AllowedIPs = " ++ allowed_or_default e.allowed_ips)
    ++ keepalive_line e.persistent_keepalive

unfoldable pub client_peers : List Endpoint → Text
client_peers [] = []
client_peers (e ∷ es) = client_peer e ++ client_peers es

-- ClientConfig.
unfoldable pub client_config : Machine → List Endpoint → Text
unfolding prefix_or_empty
client_config m es =
    line (txt "[Interface]")
    ++ line (txt "# Replace with the private key generated on this machine")
    ++ line (txt "PrivateKey = <YOUR_PRIVATE_KEY>")
    ++ line (txt "Address = " ++ prefix_or_empty m.address)
    ++ dns_line es
    ++ mtu_line es
    ++ client_peers es

-- The lines of ConcentratorConfig that depend on the endpoint.
unfoldable pub tunnel_line : Text → Text
unfolding host_prefix
tunnel_line a = if text_eq a [] then [] else line (txt "Address = " ++ host_prefix a)

unfoldable pub listen_line : Text → Text
listen_line hp = elim (split_host_port hp) [
  | none ↦ []
  | some (host, port) ↦ if text_eq port [] then [] else line (txt "ListenPort = " ++ port)
]

unfoldable pub own_mtu_line : ℕ → Text
own_mtu_line mtu = if ltb 0 mtu then line (txt "MTU = " ++ decimal mtu) else []

-- The body of the loop over the machines.
unfoldable pub machine_peer : Machine → Text
unfolding prefix_or_empty
machine_peer m =
    line []
    ++ line (txt "[Peer]")
    ++ line
        (txt "# " ++ sanitize_comment m.name ++ txt " (" ++ sanitize_comment m.owner_uid ++ txt ")")
    ++ line (txt "PublicKey = " ++ m.public_key)
    ++ line (txt "AllowedIPs = " ++ prefix_or_empty m.address)

unfoldable pub machine_peers : List Machine → Text
machine_peers [] = []
machine_peers (m ∷ ms) = machine_peer m ++ machine_peers ms

-- ConcentratorConfig.
unfoldable pub concentrator_config : Endpoint → List Machine → Text
concentrator_config e ms =
    line (txt "[Interface]")
    ++ line (txt "# " ++ sanitize_comment e.name ++ txt " concentrator")
    ++ line (txt "# Replace with the concentrator's private key")
    ++ line (txt "PrivateKey = <CONCENTRATOR_PRIVATE_KEY>")
    ++ tunnel_line e.tunnel_ip
    ++ listen_line e.host_port
    ++ own_mtu_line e.mtu
    ++ machine_peers ms
