-- ===== src/Config.antt =====
-- internal/config/config.go: sections of keys and values. A Go map is a list of entries.
pub mod Values
pub mod File
mod Tests
use minus_sync.Prelude.{
  ℕ, Bool, true, false, Option, none, some, List, [], ◌∷◌, Bytes, length, bytes_equal,
  if◌then◌else◌, ◌==◌,
}

module _ {ℓ} {A : Type ℓ} where
  unfoldable pub lookup : Bytes → List (Bytes × A) → Option A
  lookup k [] = none
  lookup k ((j, a) ∷ entries) =
      let rest = lookup k entries in if bytes_equal j k then some a else rest

  unfoldable pub assign : Bytes → A → List (Bytes × A) → List (Bytes × A)
  assign k a [] = (k, a) ∷ []
  assign k a ((j, b) ∷ entries) =
      let rest = (j, b) ∷ assign k a entries in if bytes_equal j k then (k, a) ∷ entries else rest

  unfoldable pub delete : Bytes → List (Bytes × A) → List (Bytes × A)
  delete k [] = []
  delete k ((j, b) ∷ entries) =
      let rest = delete k entries in if bytes_equal j k then rest else (j, b) ∷ rest

abbrev pub Values : Type 0
Values = List (Bytes × Bytes)

pub record Config : Type 0 where
  pub path : Bytes
  pub sections : List (Bytes × Values)

-- A key that is missing reads as the empty string.
abbrev pub text_or_empty : Option Bytes → Bytes
text_or_empty none = []
text_or_empty (some text) = text

abbrev pub value_in : Bytes → Option Values → Bytes
value_in key none = []
value_in key (some values) = text_or_empty (lookup key values)

unfoldable pub get : Bytes → Bytes → Config → Bytes
get section key c = value_in key (lookup section c.sections)

unfoldable pub get_default : Bytes → Bytes → Bytes → Config → Bytes
get_default section key otherwise c =
    let v = get section key c in if length v == 0 then otherwise else v

abbrev pub values_or_new : Option Values → Values
values_or_new none = []
values_or_new (some values) = values

unfoldable pub set : Bytes → Bytes → Bytes → Config → Config
set section key value c = record {
  path = c.path;
  sections =
      assign section (assign key value (values_or_new (lookup section c.sections))) c.sections;
}

-- A section that has lost its last key is removed.
abbrev pub unset_in : Bytes → Bytes → Option Values → List (Bytes × Values) → List (Bytes × Values)
unset_in section key none sections = sections
unset_in section key (some values) sections =
    let left = delete key values in
    if length left == 0 then delete section sections else assign section left sections

unfoldable pub unset : Bytes → Bytes → Config → Config
unset section key c = record {
  path = c.path;
  sections = unset_in section key (lookup section c.sections) c.sections;
}

abbrev pub is_there : Option Bytes → Bool
is_there none = false
is_there (some value) = true

abbrev pub has_in : Bytes → Option Values → Bool
has_in key none = false
has_in key (some values) = is_there (lookup key values)

unfoldable pub has : Bytes → Bytes → Config → Bool
has section key c = has_in key (lookup section c.sections)

unfoldable pub remove_section : Bytes → Config → Config
remove_section section c = record { path = c.path; sections = delete section c.sections }
