-- ===== src/Wg/Config/Concentrator.antt =====
-- internal/wg/config.go: what a reader finds in the configuration of a concentrator.
use wgroster.Prelude.{
  ℕ, ◌||◌, ◌≡◌, refl, inl, inr, Bool, not, Option, none, some, List, [], ◌∷◌, ◌++◌, Text, txt,
  text_eq, if◌then◌else◌, All, arith, Bool-cases, ◌==◌, true, false,
}
use wgroster.Strings.{has_char, split_host_port, host_port_of, bracketed, cut_last, cut_first}
use wgroster.Store.Models.{Machine, Endpoint}
use wgroster.Wg.Config.{
  sanitize_comment, line, host_prefix, prefix_or_empty, tunnel_line, listen_line, own_mtu_line,
  machine_peer, machine_peers, concentrator_config,
}
use wgroster.Wg.Config.Lines.{
  IsOneLine, append-IsOneLine, Reads, line-Reads, nil-Reads, setting-Reads, comment-Reads,
  break-Reads, setting, number_setting, number-Reads, map-IsOneLine, prefix-IsOneLine,
  host_prefix-IsOneLine, Reads-all, kept, ◌then◌, directives, IsPlainMachine, IsPlainEndpoint,
}

abbrev AfterOneLine : Option (Text × Text) → Type 0
AfterOneLine none = Unit
AfterOneLine (some (b, a)) = IsOneLine a

cut_last-AfterOneLine : (sep : ℕ) (t : Text) → IsOneLine t → AfterOneLine (cut_last sep t)
unfolding cut_last has_char
cut_last-AfterOneLine sep [] h = tt
cut_last-AfterOneLine sep (c ∷ cs) h =
    let rest : IsOneLine cs = ground (arith, h) in
    keep (cut_last sep cs) (cut_last-AfterOneLine sep cs rest) rest
  where
    keep :
        (r : Option (Text × Text))
        → AfterOneLine r
        → IsOneLine cs
        → AfterOneLine (elim r [
          | some (b, a) ↦ some (c ∷ b, a)
          | none ↦ if c == sep then some ([], cs) else none
        ])
    keep (some (b, a)) h k = h
    keep none h k = elim (Bool-cases (c == sep)) [ inl e ↦ rw e k | inr e ↦ rw e tt ]

unless-AfterOneLine :
    (b : Bool) (host port : Text)
    → IsOneLine port
    → AfterOneLine (if b then none else some (host, port))
unless-AfterOneLine true host port h = tt
unless-AfterOneLine false host port h = h

bracketed-AfterOneLine :
    (before port : Text) → IsOneLine port → AfterOneLine (bracketed before port)
bracketed-AfterOneLine before port h = go (cut_first b']' before)
  where
    go :
        (r : Option (Text × Text))
        → AfterOneLine (elim r [
          | none ↦ none
          | some (host, rest) ↦
              if not (text_eq rest [])
                || has_char b'[' host
                || has_char b'[' port
                || has_char b']' port
              then none
              else some (host, port)
        ])
    go none = tt
    go (some (host, rest)) = unless-AfterOneLine _ host port h

host_port_of-port : (before port : Text) → IsOneLine port → AfterOneLine (host_port_of before port)
unfolding host_port_of
host_port_of-port [] port h = unless-AfterOneLine _ [] port h
host_port_of-port (c ∷ cs) port h = elim (Bool-cases (c == b'[')) [
  | inr e ↦ rw e (unless-AfterOneLine _ (c ∷ cs) port h)
  | inl e ↦ rw e (bracketed-AfterOneLine cs port h)
]

split_host_port-AfterOneLine : (hp : Text) → IsOneLine hp → AfterOneLine (split_host_port hp)
unfolding split_host_port
split_host_port-AfterOneLine hp h = go (cut_last b':' hp) (cut_last-AfterOneLine b':' hp h)
  where
    go :
        (r : Option (Text × Text))
        → AfterOneLine r
        → AfterOneLine (elim r [ none ↦ none | some (before, port) ↦ host_port_of before port ])
    go none h = tt
    go (some (b, a)) h = host_port_of-port b a h

option_directive : Text → Option Text → List Text
unfolding setting
option_directive name none = []
option_directive name (some v) = (name ++ v) ∷ []

filled : Text → Option Text
filled t = if text_eq t [] then none else some t

-- The part of the public host and port that the concentrator listens at.
listen_port : Text → Option Text
unfolding filled
listen_port hp = elim (split_host_port hp) [ none ↦ none | some (host, port) ↦ filled port ]

listen_line-Reads :
    (hp : Text)
    → IsOneLine hp
    → Reads (listen_line hp) (option_directive (txt "ListenPort = ") (listen_port hp))
unfolding listen_line listen_port option_directive filled has_char
listen_line-Reads hp h = go (split_host_port hp) (split_host_port-AfterOneLine hp h)
  where
    port_Reads :
        (port : Text)
        → IsOneLine port
        → Reads
            (if text_eq port [] then [] else line (txt "ListenPort = " ++ port))
            (option_directive (txt "ListenPort = ") (if text_eq port [] then none else some port))
    port_Reads port k = elim (Bool-cases (text_eq port [])) [
      | inl e ↦ rw e nil-Reads
      | inr e ↦ rw e (setting-Reads (txt "ListenPort = ") port refl refl k)
    ]

    go :
        (r : Option (Text × Text))
        → AfterOneLine r
        → Reads
            (elim r [
              | none ↦ []
              | some (host, port) ↦
                  if text_eq port [] then [] else line (txt "ListenPort = " ++ port)
            ])
            (option_directive (txt "ListenPort = ") (elim r [
              | none ↦ none
              | some (host, port) ↦ if text_eq port [] then none else some port
            ]))
    go none k = nil-Reads
    go (some (host, port)) k = port_Reads port k

tunnel_directive : Text → List Text
unfolding setting
tunnel_directive a = if text_eq a [] then [] else setting (txt "Address") (host_prefix a) ∷ []

tunnel_line-Reads : (a : Text) → IsOneLine a → Reads (tunnel_line a) (tunnel_directive a)
unfolding tunnel_line tunnel_directive setting has_char
tunnel_line-Reads a h = elim (Bool-cases (text_eq a [])) [
  | inl e ↦ rw e nil-Reads
  | inr e ↦
      rw e (setting-Reads (txt "Address = ") (host_prefix a) refl refl (host_prefix-IsOneLine a h))
]

machine_directives : Machine → List Text
unfolding setting
machine_directives m =
    txt "[Peer]"
    ∷ setting (txt "PublicKey") m.public_key
    ∷ setting (txt "AllowedIPs") (prefix_or_empty m.address)
    ∷ []

machine_peer-Reads :
    (m : Machine) → IsPlainMachine m → Reads (machine_peer m) (machine_directives m)
unfolding machine_peer machine_directives setting has_char kept
machine_peer-Reads m h =
    break-Reads
    then line-Reads (txt "[Peer]") refl
    then comment-Reads
        (txt " " ++ sanitize_comment m.name ++ txt " (" ++ sanitize_comment m.owner_uid ++ txt ")")
        (append-IsOneLine
          (txt " " ++ sanitize_comment m.name ++ txt " (" ++ sanitize_comment m.owner_uid) (txt ")")
          (append-IsOneLine (txt " " ++ sanitize_comment m.name ++ txt " (")
            (sanitize_comment m.owner_uid)
            (append-IsOneLine (txt " " ++ sanitize_comment m.name) (txt " (") (map-IsOneLine m.name)
              refl)
            (map-IsOneLine m.owner_uid))
          refl)
    then setting-Reads (txt "PublicKey = ") m.public_key refl refl h.public_key
    then setting-Reads (txt "AllowedIPs = ") (prefix_or_empty m.address) refl refl
        (prefix-IsOneLine m.address h.address)

machines_directives : List Machine → List Text
machines_directives [] = []
machines_directives (m ∷ ms) = machine_directives m ++ machines_directives ms

machine_peers-Reads :
    (ms : List Machine) → All IsPlainMachine ms → Reads (machine_peers ms) (machines_directives ms)
unfolding machine_peers machines_directives
machine_peers-Reads [] h = nil-Reads
machine_peers-Reads (m ∷ ms) h = machine_peer-Reads m h.0 then machine_peers-Reads ms h.1

-- What the configuration of a concentrator says.
pub concentrator_directives : Endpoint → List Machine → List Text
concentrator_directives e ms =
    txt "[Interface]" ∷ txt "PrivateKey = <CONCENTRATOR_PRIVATE_KEY>" ∷ []
    ++ tunnel_directive e.tunnel_ip
    ++ option_directive (txt "ListenPort = ") (listen_port e.host_port)
    ++ number_setting (txt "MTU") e.mtu
    ++ machines_directives ms

pub concentrator_config-directives :
    (e : Endpoint) (ms : List Machine)
    → IsPlainEndpoint e
    → All IsPlainMachine ms
    → directives (concentrator_config e ms) ≡ concentrator_directives e ms
unfolding concentrator_config concentrator_directives has_char kept own_mtu_line
concentrator_config-directives e ms h k = Reads-all _ _ (
    line-Reads (txt "[Interface]") refl
    then comment-Reads (txt " " ++ sanitize_comment e.name ++ txt " concentrator") (
        append-IsOneLine (txt " " ++ sanitize_comment e.name) (txt " concentrator")
          (map-IsOneLine e.name) refl)
    then comment-Reads (txt " Replace with the concentrator's private key") refl
    then line-Reads (txt "PrivateKey = <CONCENTRATOR_PRIVATE_KEY>") refl
    then tunnel_line-Reads e.tunnel_ip h.tunnel_ip
    then listen_line-Reads e.host_port h.host_port
    then number-Reads (txt "MTU") e.mtu refl refl
    then machine_peers-Reads ms k)
