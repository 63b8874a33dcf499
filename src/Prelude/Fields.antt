-- ===== src/Prelude/Fields.antt =====
-- `strings.TrimSpace` and `strings.Fields` on ASCII text.
use Prim.Native.Nat.{ℕ}
use mathlib.Core.Path.{◌≡◌, refl, sym, ap, ◌∙◌}
use mathlib.Core.Logic.{◌⊎◌, inl, inr}
use mathlib.Core.Bool.{true, false}
use mathlib.Core.List.{List, [], ◌∷◌, ◌++◌, reverse, reverse_aux, reverse-reverse}
use minus_sync.Prelude.Tests.{if◌then◌else◌, Bool-cases}
use minus_sync.Prelude.Lists.{Bytes, All}
use minus_sync.Prelude.Strings.{is_space, trim_left, trim_space}

-- The fields behind a visible byte: it starts a field, or stands in front of one.
abbrev pub start_field : ℕ → Bytes → List Bytes → List Bytes
start_field c [] fields = (c ∷ []) ∷ fields
start_field c (d ∷ text) [] = (c ∷ []) ∷ []
start_field c (d ∷ text) (field ∷ fields) =
    if is_space d then (c ∷ []) ∷ field ∷ fields else (c ∷ field) ∷ fields

unfoldable pub fields : Bytes → List Bytes
unfolding is_space
fields [] = []
fields (c ∷ text) = let rest = fields text in if is_space c then rest else start_field c text rest

abbrev pub IsVisible : Bytes → Type 0
IsVisible = All (λ (c : ℕ). is_space c ≡ false)

pub fields-one : (c : ℕ) (word : Bytes) → IsVisible (c ∷ word) → fields (c ∷ word) ≡ (c ∷ word) ∷ []
unfolding fields
fields-one c [] (visible, h) = rw visible refl
fields-one c (d ∷ word) (visible, (next, h)) = rw (visible, fields-one d word (next, h), next) refl

pub fields-cons :
    (c : ℕ) (word : Bytes) (d : ℕ) (second : Bytes)
    → IsVisible (c ∷ word)
    → IsVisible (d ∷ second)
    → fields (c ∷ (word ++ 32 ∷ d ∷ second)) ≡ (c ∷ word) ∷ (d ∷ second) ∷ []
unfolding fields
fields-cons c [] d second (visible, h) k =
    rw visible (ap (start_field c (32 ∷ d ∷ second)) (fields-one d second k))
fields-cons c (e ∷ word) d second (visible, (next, h)) k =
    rw (visible, fields-cons e word d second (next, h) k, next) refl

reverse_aux-end : (xs acc : Bytes) (c : ℕ) → reverse_aux (xs ++ c ∷ []) acc ≡ c ∷ reverse_aux xs acc
reverse_aux-end [] acc c = refl
reverse_aux-end (x ∷ xs) acc c = reverse_aux-end xs (x ∷ acc) c

-- A space in front or behind makes no difference.
pub trim_space-front :
    (c : ℕ) (text : Bytes) → is_space c ≡ true → trim_space (c ∷ text) ≡ trim_space text
unfolding trim_space trim_left
trim_space-front c text space = rw space refl

trim_left-space : (c : ℕ) (text : Bytes) → is_space c ≡ true → trim_left (c ∷ text) ≡ trim_left text
unfolding trim_left
trim_left-space c text space = rw space refl

trim_left-visible : (c : ℕ) (text : Bytes) → is_space c ≡ false → trim_left (c ∷ text) ≡ c ∷ text
unfolding trim_left
trim_left-visible c text visible = rw visible refl

trim_left-end :
    (text : Bytes) (c : ℕ)
    → is_space c ≡ true
    → (trim_left (text ++ c ∷ []) ≡ trim_left text ++ c ∷ [])
      ⊎ ((trim_left (text ++ c ∷ []) ≡ []) × (trim_left text ≡ []))
unfolding trim_left
trim_left-end [] c space = inr (rw space refl, refl)
trim_left-end (d ∷ text) c space = elim (Bool-cases (is_space d)) [
  | inl skipped ↦ rw skipped (trim_left-end text c space)
  | inr visible ↦ rw visible (inl refl)
]

pub trim_space-end :
    (text : Bytes) (c : ℕ) → is_space c ≡ true → trim_space (text ++ c ∷ []) ≡ trim_space text
unfolding trim_space
trim_space-end text c space = elim (trim_left-end text c space) [
  | inl kept ↦
      ap (λ xs. reverse (trim_left (reverse xs))) kept
      ∙ ap (λ xs. reverse (trim_left xs)) (reverse_aux-end (trim_left text) [] c)
      ∙ ap reverse (trim_left-space c (reverse (trim_left text)) space)
  | inr (gone, empty) ↦ rw (gone, empty) refl
]

-- What neither begins nor ends with a space stays.
pub trim_space-visible :
    (c : ℕ) (text : Bytes) (d : ℕ)
    → is_space c ≡ false
    → is_space d ≡ false
    → trim_space (c ∷ (text ++ d ∷ [])) ≡ c ∷ (text ++ d ∷ [])
unfolding trim_space trim_left
trim_space-visible c text d first last =
    let turned : reverse (c ∷ (text ++ d ∷ [])) ≡ d ∷ reverse_aux text (c ∷ []) =
      reverse_aux-end text (c ∷ []) d in
    ap (λ xs. reverse (trim_left (reverse xs))) (trim_left-visible c (text ++ d ∷ []) first)
    ∙ ap (λ xs. reverse (trim_left xs)) turned
    ∙ ap reverse (trim_left-visible d (reverse_aux text (c ∷ [])) last)
    ∙ ap reverse (sym turned)
    ∙ reverse-reverse (c ∷ (text ++ d ∷ []))

IsVisible-reverse_aux :
    (xs acc : Bytes) → IsVisible xs → IsVisible acc → IsVisible (reverse_aux xs acc)
IsVisible-reverse_aux [] acc h k = k
IsVisible-reverse_aux (x ∷ xs) acc (p, h) k = IsVisible-reverse_aux xs (x ∷ acc) h (p, k)

trim_left-IsVisible : (xs : Bytes) → IsVisible xs → trim_left xs ≡ xs
unfolding trim_left
trim_left-IsVisible [] h = refl
trim_left-IsVisible (x ∷ xs) (p, h) = rw p refl

pub trim_space-IsVisible : (xs : Bytes) → IsVisible xs → trim_space xs ≡ xs
unfolding trim_space
trim_space-IsVisible xs h =
    ap (λ x. reverse (trim_left (reverse x))) (trim_left-IsVisible xs h)
    ∙ ap reverse (trim_left-IsVisible (reverse xs) (IsVisible-reverse_aux xs [] h tt))
    ∙ reverse-reverse xs
