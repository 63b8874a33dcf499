-- ===== src/Config/Values.antt =====
-- internal/config/config.go: what a change of the configuration does to every value.
use minus_sync.Prelude.{
  true, false, Option, none, some, List, [], ◌∷◌, Bytes, length, bytes_equal, bytes_equal_iff,
  if◌then◌else◌, ◌==◌, Bool-cases, inl, inr, ◌≡◌, refl, sym, ap, ◌∙◌, arith,
}
use minus_sync.Config.{
  lookup, assign, delete, Values, Config, text_or_empty, value_in, get, values_or_new, set,
  unset_in, unset, remove_section,
}

module _ {ℓ} {A : Type ℓ} where
  pub lookup-assign :
      (k j : Bytes) (a : A) (entries : List (Bytes × A))
      → lookup j (assign k a entries) ≡ (if bytes_equal k j then some a else lookup j entries)
  unfolding lookup assign
  lookup-assign k j a [] = refl
  lookup-assign k j a ((i, b) ∷ entries) =
      let rest = lookup-assign k j a entries in
      elim (Bool-cases (bytes_equal i k)) [
        | inl same ↦
            let e = (bytes_equal_iff i k).0 same in
            elim (Bool-cases (bytes_equal k j)) [
              | inl here ↦ rw (same, here) refl
              | inr other ↦ rw (same, e, other) refl
            ]
        | inr differ ↦ elim (Bool-cases (bytes_equal k j)) [
          | inl here ↦ rw (differ, rest, here, sym ((bytes_equal_iff k j).0 here), differ) refl
          | inr other ↦ rw (differ, rest, other) refl
        ]
      ]

  lookup-delete :
      (k j : Bytes) (entries : List (Bytes × A))
      → lookup j (delete k entries) ≡ (if bytes_equal k j then none else lookup j entries)
  unfolding lookup delete
  lookup-delete k j [] = elim (Bool-cases (bytes_equal k j)) [
    | inl here ↦ rw here refl
    | inr other ↦ rw other refl
  ]
  lookup-delete k j ((i, b) ∷ entries) =
      let rest = lookup-delete k j entries in
      elim (Bool-cases (bytes_equal i k)) [
        | inl same ↦
            let e = (bytes_equal_iff i k).0 same in
            elim (Bool-cases (bytes_equal k j)) [
              | inl here ↦ rw (same, rest, here) refl
              | inr other ↦ rw (same, rest, other, e, other) refl
            ]
        | inr differ ↦ elim (Bool-cases (bytes_equal k j)) [
          | inl here ↦ rw (differ, rest, here, sym ((bytes_equal_iff k j).0 here), differ) refl
          | inr other ↦ rw (differ, rest, other) refl
        ]
      ]

value_in-values_or_new :
    (key : Bytes) (o : Option Values)
    → text_or_empty (lookup key (values_or_new o)) ≡ value_in key o
unfolding lookup
value_in-values_or_new key none = refl
value_in-values_or_new key (some values) = refl

get-set :
    (section key value other_section other_key : Bytes) (c : Config)
    → get other_section other_key (set section key value c) ≡ (
        if bytes_equal section other_section
        then (if bytes_equal key other_key then value else get other_section other_key c)
        else get other_section other_key c)
unfolding get set
get-set section key value other_section other_key c =
    elim (Bool-cases (bytes_equal section other_section)) [
      | inl here ↦ elim (Bool-cases (bytes_equal key other_key)) [
        | inl there ↦ rw (lookup-assign, here, lookup-assign, there) refl
        | inr other ↦
            rw
              (
                lookup-assign,
                here,
                lookup-assign,
                other,
                sym ((bytes_equal_iff section other_section).0 here),
              )
              (value_in-values_or_new other_key (lookup section c.sections))
      ]
      | inr other ↦ rw (lookup-assign, other) refl
    ]

text_or_empty-delete :
    (key j : Bytes) (values : Values)
    → text_or_empty (lookup j (delete key values))
      ≡ (if bytes_equal key j then [] else text_or_empty (lookup j values))
text_or_empty-delete key j values = elim (Bool-cases (bytes_equal key j)) [
  | inl here ↦ rw (lookup-delete, here) refl
  | inr other ↦ rw (lookup-delete, other) refl
]

length-zero : (values : Values) → (length values == 0) ≡ true → values ≡ []
length-zero [] e = refl
length-zero (v ∷ values) e = ground arith

unset_in-value :
    (section key j : Bytes) (o : Option Values) (sections : List (Bytes × Values))
    → lookup section sections ≡ o
    → value_in j (lookup section (unset_in section key o sections))
      ≡ (if bytes_equal key j then [] else value_in j o)
unfolding lookup
unset_in-value section key j none sections e = elim (Bool-cases (bytes_equal key j)) [
  | inl here ↦ rw (e, here) refl
  | inr other ↦ rw (e, other) refl
]
unset_in-value section key j (some values) sections e =
    let same = (bytes_equal_iff section section).1 refl in
    elim (Bool-cases (length (delete key values) == 0)) [
      | inl empty ↦
          rw (empty, lookup-delete, same)
            (sym
                (ap (λ left. text_or_empty (lookup j left)) (length-zero (delete key values) empty))
              ∙ text_or_empty-delete key j values)
      | inr more ↦ rw (more, lookup-assign, same) (text_or_empty-delete key j values)
    ]

unset_in-other :
    (section key s : Bytes) (o : Option Values) (sections : List (Bytes × Values))
    → bytes_equal section s ≡ false
    → lookup s (unset_in section key o sections) ≡ lookup s sections
unset_in-other section key s none sections differ = refl
unset_in-other section key s (some values) sections differ =
    elim (Bool-cases (length (delete key values) == 0)) [
      | inl empty ↦ rw (empty, lookup-delete, differ) refl
      | inr more ↦ rw (more, lookup-assign, differ) refl
    ]

get-unset :
    (section key other_section other_key : Bytes) (c : Config)
    → get other_section other_key (unset section key c) ≡ (
        if bytes_equal section other_section
        then (if bytes_equal key other_key then [] else get other_section other_key c)
        else get other_section other_key c)
unfolding get unset
get-unset section key other_section other_key c =
    elim (Bool-cases (bytes_equal section other_section)) [
      | inl here ↦
          rw (here, sym ((bytes_equal_iff section other_section).0 here))
            (unset_in-value section key other_key (lookup section c.sections) c.sections refl)
      | inr other ↦ rw other (
          ap (value_in other_key)
            (unset_in-other section key other_section (lookup section c.sections) c.sections other))
    ]

get-remove_section :
    (section other_section other_key : Bytes) (c : Config)
    → get other_section other_key (remove_section section c)
      ≡ (if bytes_equal section other_section then [] else get other_section other_key c)
unfolding get remove_section
get-remove_section section other_section other_key c =
    elim (Bool-cases (bytes_equal section other_section)) [
      | inl here ↦ rw (lookup-delete, here) refl
      | inr other ↦ rw (lookup-delete, other) refl
    ]

-- After each of the three changes, `Get` of any section and key: `Set` gives the new value for the
-- key that was set, `Unset` the empty string for the key that was unset, `RemoveSection` the empty
-- string for every key of the section; all other values are as before the change.
pub get-changes :
    (section key value other_section other_key : Bytes) (c : Config)
    → (get other_section other_key (set section key value c) ≡ (
        if bytes_equal section other_section
        then (if bytes_equal key other_key then value else get other_section other_key c)
        else get other_section other_key c))
      × (get other_section other_key (unset section key c) ≡ (
          if bytes_equal section other_section
          then (if bytes_equal key other_key then [] else get other_section other_key c)
          else get other_section other_key c))
      × (get other_section other_key (remove_section section c)
          ≡ (if bytes_equal section other_section then [] else get other_section other_key c))
get-changes section key value other_section other_key c = (
  get-set section key value other_section other_key c,
  get-unset section key other_section other_key c,
  get-remove_section section other_section other_key c,
)
