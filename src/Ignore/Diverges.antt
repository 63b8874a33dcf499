-- ===== src/Ignore/Diverges.antt =====
-- internal/ignore/ignore.go: the loop of `globMatch` behind a `**`.
use minus_sync.Prelude.{
  ℕ, zero, suc, false, ◌||◌, [], ◌∷◌, Bytes, ◌==◌, ◌≡◌, refl, Option, none, some, Bool-cases, inl,
  inr,
}
use minus_sync.Ignore.{
  turn, restore, byte_turn, follow, glob_loop, glob_match, behind_stars, star_turn, save_next,
}
use minus_sync.Ignore.Spec.{describes, match_byte, IsPlain}

-- A turn behind a `**`, at a place where the rest of the name does not match: either the rest of
-- the rest does not match, or the loop goes back.
glob_loop-failing :
    (fuel : ℕ) (pattern name back rest : Bytes)
    → IsPlain pattern
    → IsPlain back
    → describes pattern name ≡ false
    → describes back rest ≡ false
    → glob_loop fuel pattern name (some (back, rest)) ≡ none
unfolding glob_loop turn follow restore byte_turn match_byte describes
glob_loop-failing zero pattern name back rest plain back_plain differs rest_differs = refl
glob_loop-failing (suc fuel) [] [] back rest plain back_plain differs rest_differs = absurd (cc)
glob_loop-failing (suc fuel) [] (d ∷ name) back rest plain back_plain differs rest_differs =
    glob_loop-failing fuel back rest back rest back_plain back_plain rest_differs rest_differs
glob_loop-failing (suc fuel) (c ∷ pattern) [] back rest (other, plain) back_plain differs
      rest_differs =
    rw other
      (glob_loop-failing fuel back rest back rest back_plain back_plain rest_differs rest_differs)
glob_loop-failing (suc fuel) (c ∷ pattern) (d ∷ name) back rest (other, plain) back_plain differs
      rest_differs =
    let again =
      glob_loop-failing fuel back rest back rest back_plain back_plain rest_differs rest_differs in
    elim (Bool-cases (c == 63 || d == c)) [
      | inl same ↦
          rw (other, same)
            (glob_loop-failing fuel pattern name back rest plain back_plain
              (rw (other, same) at differs) rest_differs)
      | inr different ↦ rw (other, different) again
    ]

cut_injective : {a b : Bytes} → ◌≡◌ {A = Option Bytes} (some a) (some b) → a ≡ b
cut_injective e = cc

-- `globMatch` of `**` and a rest never returns if the rest has no `*` and describes neither the name
-- nor the name without its first byte: no number of turns ends the loop. A slash right behind `**` is
-- not part of the rest.
pub glob_match-diverges :
    (fuel : ℕ) (pattern behind : Bytes) (d : ℕ) (name : Bytes)
    → behind_stars (42 ∷ pattern) ≡ some behind
    → IsPlain behind
    → describes behind (d ∷ name) ≡ false
    → describes behind name ≡ false
    → glob_match fuel (42 ∷ 42 ∷ pattern) (d ∷ name) ≡ none
unfolding glob_match glob_loop follow turn behind_stars star_turn save_next
glob_match-diverges zero pattern behind d name cut plain differs next_differs = refl
glob_match-diverges (suc fuel) pattern behind d name cut plain differs next_differs =
    let rest = cut_injective cut in
    rw rest (glob_loop-failing fuel behind (d ∷ name) behind name plain plain differs next_differs)
