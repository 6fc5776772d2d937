-- ===== src/Wg/Config/Lines.antt =====
-- internal/wg/config.go: the directives that a reader of a generated configuration finds, which are
-- its lines that are neither empty nor a comment.
use mathlib.Core.List.{append_assoc, append-nil}
use wgroster.Prelude.{
  ℕ, zero, suc, ◌+◌, ◌/◌, ◌%◌, ◌≡◌, refl, sym, ap, subst, ◌∙◌, inl, inr, Bool, true, false, not,
  List, [], ◌∷◌, ◌++◌, Text, txt, ltb, ◌==◌, if◌then◌else◌, select, arith, Bool-cases,
}
use wgroster.Strings.{split, has_char, is_control}
use wgroster.Wg.Config.{sanitize_comment, decimal_from, decimal, line, host_prefix, prefix_or_empty}
use wgroster.Store.Models.{Machine, Endpoint}

abbrev pub is_directive : Text → Bool
is_directive [] = false
is_directive (c ∷ cs) = not (c == b'#')

unfoldable pub directives : Text → List Text
directives t = select is_directive (split 10 t)

abbrev pub IsOneLine : Text → Type 0
IsOneLine s = has_char 10 s ≡ false

pub append-IsOneLine : (s t : Text) → IsOneLine s → IsOneLine t → IsOneLine (s ++ t)
unfolding has_char
append-IsOneLine [] t h k = k
append-IsOneLine (c ∷ cs) t h k = ground (arith, append-IsOneLine cs t)

pub map-IsOneLine : (s : Text) → IsOneLine (sanitize_comment s)
unfolding sanitize_comment has_char is_control
map-IsOneLine [] = refl
map-IsOneLine (c ∷ cs) = ground (arith, map-IsOneLine cs)

decimal_from-IsOneLine : (f n : ℕ) → IsOneLine (decimal_from f n)
unfolding decimal_from has_char
decimal_from-IsOneLine zero n = refl
decimal_from-IsOneLine (suc f) n = elim (Bool-cases (ltb n 10)) [
  | inl e ↦ rw (e, decimal_from) (ground arith)
  | inr e ↦
      rw (e, decimal_from)
        (append-IsOneLine (decimal_from f (n / 10)) ((b'0' + n % 10) ∷ [])
          (decimal_from-IsOneLine f (n / 10)) (ground arith))
]

pub decimal-IsOneLine : (n : ℕ) → IsOneLine (decimal n)
unfolding decimal
decimal-IsOneLine n = decimal_from-IsOneLine (suc n) n

-- A text adds these directives to those of the text after it.
pub record Reads (t : Text) (ds : List Text) : Type 0 where
  pub reads : (rest : Text) → directives (t ++ rest) ≡ ds ++ directives rest

infixl 4 ◌then◌
pub ◌then◌ : {t u : Text} {ds es : List Text} → Reads t ds → Reads u es → Reads (t ++ u) (ds ++ es)
◌then◌ {t} {u} {ds} {es} h k = record {
  reads = λ rest.
      ap directives (append_assoc t u rest)
      ∙ h.reads (u ++ rest)
      ∙ ap (λ x. ds ++ x) (k.reads rest)
      ∙ sym (append_assoc ds es (directives rest));
}

pub split-line : (s rest : Text) → IsOneLine s → split 10 (line s ++ rest) ≡ s ∷ split 10 rest
unfolding split line has_char
split-line [] rest h = refl
split-line (c ∷ cs) rest h = elim (Bool-cases (c == 10)) [
  | inl e ↦ absurd (ground (arith, e))
  | inr e ↦ rw (e, split-line cs rest (ground (arith, e))) refl
]

unfoldable pub kept : Text → List Text
kept s = if is_directive s then s ∷ [] else []

pub line-Reads : (s : Text) → IsOneLine s → Reads (line s) (kept s)
unfolding directives kept
line-Reads s h = record {
  reads = λ rest.
      rw (split-line s rest h)
        (elim (Bool-cases (is_directive s)) [ inl e ↦ rw e refl | inr e ↦ rw e refl ]);
}

pub nil-Reads : Reads [] []
nil-Reads = record { reads = λ rest. refl }

-- A block that is written only in one case.
pub if-Reads :
    (b : Bool) (t : Text) (ds : List Text)
    → Reads t ds
    → Reads (if b then t else []) (if b then ds else [])
if-Reads true t ds h = h
if-Reads false t ds h = nil-Reads

-- A directive is its words and a value on one line.
pub setting-Reads :
    (words value : Text)
    → is_directive (words ++ value) ≡ true
    → IsOneLine words
    → IsOneLine value
    → Reads (line (words ++ value)) ((words ++ value) ∷ [])
unfolding kept
setting-Reads words value n h k =
    subst (Reads (line (words ++ value))) (rw n refl)
      (line-Reads (words ++ value) (append-IsOneLine words value h k))

-- A comment adds no directive.
pub comment-Reads : (words : Text) → IsOneLine words → Reads (line (b'#' ∷ words)) []
unfolding kept has_char
comment-Reads words h = line-Reads (b'#' ∷ words) (append-IsOneLine (b'#' ∷ []) words refl h)

pub break-Reads : Reads (line []) []
unfolding kept has_char
break-Reads = line-Reads [] refl

-- The values that stand in a configuration as they are stored.
pub record IsPlainMachine (m : Machine) : Type 0 where
  pub public_key : IsOneLine m.public_key
  pub address : IsOneLine m.address

pub record IsPlainEndpoint (e : Endpoint) : Type 0 where
  pub public_key : IsOneLine e.public_key
  pub host_port : IsOneLine e.host_port
  pub allowed_ips : IsOneLine e.allowed_ips
  pub dns : IsOneLine e.dns
  pub tunnel_ip : IsOneLine e.tunnel_ip

unfoldable pub setting : Text → Text → Text
setting name value = name ++ txt " = " ++ value

unfoldable pub number_setting : Text → ℕ → List Text
unfolding setting
number_setting name n = if ltb 0 n then setting name (decimal n) ∷ [] else []

pub number-Reads :
    (name : Text) (n : ℕ)
    → is_directive (name ++ txt " = " ++ decimal n) ≡ true
    → IsOneLine (name ++ txt " = ")
    → Reads (if ltb 0 n then line (name ++ txt " = " ++ decimal n) else []) (number_setting name n)
unfolding number_setting setting
number-Reads name n d h =
    if-Reads (ltb 0 n) _ _ (setting-Reads (name ++ txt " = ") (decimal n) d h (decimal-IsOneLine n))

pub host_prefix-IsOneLine : (a : Text) → IsOneLine a → IsOneLine (host_prefix a)
unfolding host_prefix has_char
host_prefix-IsOneLine a h = ground (arith, append-IsOneLine a (txt "/32") h refl)

pub prefix-IsOneLine : (a : Text) → IsOneLine a → IsOneLine (prefix_or_empty a)
unfolding prefix_or_empty has_char
prefix-IsOneLine a h = ground (arith, host_prefix-IsOneLine a h)

pub Reads-all : (t : Text) (ds : List Text) → Reads t ds → directives t ≡ ds
unfolding directives split
Reads-all t ds h = ap directives (sym (append-nil t)) ∙ h.reads [] ∙ append-nil ds
