-- ===== src/Ignore/Spec.antt =====
-- internal/ignore/ignore.go: which names a pattern without `**` describes, by recursion on the
-- pattern.
use minus_sync.Prelude.{
  ℕ, Bool, true, false, ◌&&◌, ◌||◌, [], ◌∷◌, Bytes, if◌then◌else◌, ◌==◌, ◌≡◌, refl, none,
}
use minus_sync.Ignore.{behind_stars}

-- A `*` stands for any bytes in front of a rest that the remaining pattern describes.
unfoldable pub any_suffix : (Bytes → Bool) → Bytes → Bool
any_suffix test [] = test []
any_suffix test (d ∷ name) = test (d ∷ name) || any_suffix test name

unfoldable pub match_byte : ℕ → (Bytes → Bool) → Bytes → Bool
match_byte c test [] = false
match_byte c test (d ∷ name) = (c == 63 || d == c) && test name

unfoldable pub describes : Bytes → Bytes → Bool
unfolding any_suffix match_byte
describes [] [] = true
describes [] (d ∷ name) = false
describes (c ∷ pattern) name =
    let test = describes pattern in if c == 42 then any_suffix test name else match_byte c test name

-- No `*` in front of another one.
abbrev pub IsSingle : Bytes → Type 0
IsSingle [] = Unit {0}
IsSingle (c ∷ pattern) = (c ≡ 42 → behind_stars pattern ≡ none) × IsSingle pattern

-- No `*` at all.
abbrev pub IsPlain : Bytes → Type 0
IsPlain [] = Unit {0}
IsPlain (c ∷ pattern) = ((c == 42) ≡ false) × IsPlain pattern

pub describes-byte :
    (c : ℕ) (pattern name : Bytes)
    → (c == 42) ≡ false
    → describes (c ∷ pattern) name ≡ match_byte c (describes pattern) name
unfolding describes
describes-byte c pattern name other = rw other refl

pub describes-star :
    (pattern name : Bytes) → describes (42 ∷ pattern) name ≡ any_suffix (describes pattern) name
unfolding describes
describes-star pattern name = refl
