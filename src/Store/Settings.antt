-- ===== src/Store/Settings.antt =====
-- internal/store/settings.go: the table of settings, whose primary key is the name.
use wgroster.Prelude.{
  ◌≡◌, ◌≢◌, refl, ap, ◌∙◌, inl, inr, false, Option, none, some, List, [], ◌∷◌, Text, text_eq,
  text_eq→eq, text_eq_refl, if◌then◌else◌, Bool-cases,
}

-- GetSetting; none is a name without a row.
unfoldable pub get_setting : Text → List (Text × Text) → Option Text
get_setting name [] = none
get_setting name ((n, v) ∷ rows) =
    let rest = get_setting name rows in if text_eq n name then some v else rest

-- SetSetting: INSERT … ON CONFLICT(name) DO UPDATE.
unfoldable pub set_setting : Text → Text → List (Text × Text) → List (Text × Text)
set_setting name value [] = (name, value) ∷ []
set_setting name value ((n, v) ∷ rows) =
    let rest = set_setting name value rows in
    if text_eq n name then (n, value) ∷ rows else (n, v) ∷ rest

get_set :
    (name value : Text) (rows : List (Text × Text))
    → get_setting name (set_setting name value rows) ≡ some value
unfolding get_setting set_setting
get_set name value [] = rw (text_eq_refl name) refl
get_set name value ((n, v) ∷ rows) = elim (Bool-cases (text_eq n name)) [
  | inl e ↦ rw e (rw e refl)
  | inr e ↦ rw e (rw e (get_set name value rows))
]

get_set_other :
    (name other value : Text) (rows : List (Text × Text))
    → text_eq name other ≡ false
    → get_setting other (set_setting name value rows) ≡ get_setting other rows
unfolding get_setting set_setting
get_set_other name other value [] h = rw h refl
get_set_other name other value ((n, v) ∷ rows) h = elim (Bool-cases (text_eq n name)) [
  | inl e ↦ rw e (rw (ap (λ k. text_eq k other) (text_eq→eq n name e) ∙ h) refl)
  | inr e ↦ rw e (rw (get_set_other name other value rows h) refl)
]

-- After SetSetting, GetSetting returns the new value under that name and what it returned
-- before under every other name.
pub set_setting-get_setting :
    (name value : Text) (rows : List (Text × Text))
    → (get_setting name (set_setting name value rows) ≡ some value)
      × ((other : Text)
          → name ≢ other
          → get_setting other (set_setting name value rows) ≡ get_setting other rows)
set_setting-get_setting name value rows = (
  get_set name value rows,
  λ other ne. elim (Bool-cases (text_eq name other)) [
    | inl e ↦ absurd (ne (text_eq→eq name other e))
    | inr e ↦ get_set_other name other value rows e
  ],
)
