-- ===== src/Ipam/Validate.antt =====
-- internal/ipam/ipam.go: the addresses that Validate accepts, and its agreement with NextFree.
use wgroster.Prelude.{
  ◌≡◌, ◌≢◌, ◌↔◌, refl, sym, ap, ◌∙◌, inl, inr, true, false, none, some, List, [], ◌∷◌, Text,
  text_eq, any, In, arith, Option-cases,
}
use wgroster.Netip.{Addr, Netip, contains}
use wgroster.Netip.Prefixes.{IsMasked, addr_eq→eq, addr_eq_refl}
use wgroster.Ipam.{
  Pool, Found, free, exhausted, out_of_fuel, broadcast, equals_option, is_taken, search, parse_all,
  validate, validate_parsed, check_used, next_free, found_text,
}
use wgroster.Ipam.Search.{Lowest, search-Lowest}

not-In_of_any : (t : Text) (used : List Text) → any (λ u. text_eq u t) used ≡ false → ¬ In t used
not-In_of_any t [] h i = i
not-In_of_any t (u ∷ us) h i = ground (arith, not-In_of_any t us)

any_of_not-In : (t : Text) (used : List Text) → ¬ In t used → any (λ u. text_eq u t) used ≡ false
any_of_not-In t [] h = refl
any_of_not-In t (u ∷ us) h =
    ground (arith, any_of_not-In t us (λ i. h (inr i)), λ (e : u ≡ t). h (inl e))

module _ (netip : Netip) where
  -- What an accepted address is: a text that parses to an address in the pool, which is neither the
  -- network nor the broadcast address, and that none of the used texts spells the same way.
  pub record IsAccepted (pool : Pool) (addr : Text) (used : List Text) (a : Addr) : Type 0 where
    pub parses : netip.parse_addr addr ≡ some a
    pub inside : contains pool.prefix a ≡ true
    pub not_network : a ≢ pool.prefix.addr
    pub not_broadcast : equals_option a (broadcast pool) ≡ false
    pub not_used : ¬ In addr used

  IsAccepted-parsed :
      (pool : Pool) (addr : Text) (used : List Text) (a : Addr)
      → netip.parse_addr addr ≡ some a
      → validate_parsed netip pool addr a used ≡ none
      → IsAccepted pool addr used a
  unfolding validate_parsed check_used
  IsAccepted-parsed pool addr used a p h = record {
    parses = p;
    inside = ground arith;
    not_network = λ e. ground (arith, addr_eq_refl a);
    not_broadcast = ground arith;
    not_used = not-In_of_any addr used (ground arith);
  }

  parsed_accepted :
      (pool : Pool) (addr : Text) (used : List Text) (a : Addr)
      → IsAccepted pool addr used a
      → validate_parsed netip pool addr a used ≡ none
  unfolding validate_parsed check_used
  parsed_accepted pool addr used a acc = ground (
    arith,
    addr_eq→eq a pool.prefix.addr,
    acc.inside,
    acc.not_broadcast,
    any_of_not-In addr used acc.not_used,
  )

  -- Validate returns no error exactly when the text parses to an address in the pool that is
  -- neither the network nor the broadcast address, and the text is not among the used ones.
  pub validate_iff :
      (pool : Pool) (addr : Text) (used : List Text)
      → (validate netip pool addr used ≡ none) ↔ ((a : Addr) × IsAccepted pool addr used a)
  unfolding validate
  validate_iff pool addr used = (
    λ h. elim (Option-cases (netip.parse_addr addr)) [
      | inl e ↦ absurd (ground arith)
      | inr (a, e) ↦ (a, IsAccepted-parsed pool addr used a e (ground arith))
    ],
    λ (a, acc). ground (arith, parsed_accepted pool addr used a acc, acc.parses),
  )

  not_taken-not_used :
      (t : Text) (a : Addr) (used : List Text)
      → netip.parse_addr t ≡ some a
      → is_taken (parse_all netip used) a ≡ false
      → ¬ In t used
  unfolding parse_all
  not_taken-not_used t a [] p h i = i
  not_taken-not_used t a (u ∷ us) p h (inl e) = ground (arith, addr_eq_refl a)
  not_taken-not_used t a (u ∷ us) p h (inr i) = elim (Option-cases (netip.parse_addr u)) [
    | inl e ↦ not_taken-not_used t a us p (ground arith) i
    | inr (b, e) ↦ not_taken-not_used t a us p (ground arith) i
  ]

  -- For a pool with a masked prefix, whatever NextFree proposes for a list of used addresses,
  -- Validate accepts with the same list.
  pub next_free-validate :
      (pool : Pool) (used : List Text) (t : Text)
      → IsMasked pool.prefix
      → next_free netip pool used ≡ some t
      → validate netip pool t used ≡ none
  unfolding next_free
  next_free-validate pool used t m h =
      go (search netip pool used) (search-Lowest netip pool used m) h
    where
      go :
          (r : Found)
          → Lowest pool (parse_all netip used) r
          → found_text netip r ≡ some t
          → validate netip pool t used ≡ none
      go (free a) (u, _) e =
          let shown : netip.show_addr a ≡ t = ground arith in
          let parsed : netip.parse_addr t ≡ some a =
            ap netip.parse_addr (sym shown) ∙ netip.parse-show a u.valid in
          (validate_iff pool t used).1 (
            a,
            record {
              parses = parsed;
              inside = u.inside;
              not_network = u.not_network;
              not_broadcast = u.not_broadcast;
              not_used = not_taken-not_used t a used parsed u.not_taken;
            },
          )
      go exhausted h e = ground arith
      go out_of_fuel h e = ground arith

  -- An address that Validate accepts is still accepted when another text is added to the used
  -- ones, also when that text parses to the same address.
  pub validate_other_spelling :
      (pool : Pool) (s t : Text) (used : List Text)
      → validate netip pool t used ≡ none
      → s ≢ t
      → validate netip pool t (s ∷ used) ≡ none
  validate_other_spelling pool s t used h ne =
      let (a, acc) = (validate_iff pool t used).0 h in
      (validate_iff pool t (s ∷ used)).1 (
        a,
        record {
          parses = acc.parses;
          inside = acc.inside;
          not_network = acc.not_network;
          not_broadcast = acc.not_broadcast;
          not_used = λ i. elim i [ inl e ↦ ne e | inr j ↦ acc.not_used j ];
        },
      )
