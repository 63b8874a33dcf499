-- ===== src/Ignore/Restart.antt =====
-- internal/ignore/ignore.go: the one saved place of `globMatch` is enough, since a later `*` can
-- take over whatever an earlier one could still try.
use minus_sync.Prelude.{
  ℕ, zero, suc, ◌+◌, ◌*◌, ◌≤◌, ◌<◌, Bool, true, false, ◌||◌, [], ◌∷◌, Bytes, length, ◌==◌, ◌≡◌,
  refl, arith, Option, none, some, Bool-cases, inl, inr, ◌∙◌, ap, sym, fun_ext, subst, ==_iff,
}
use native.Mathlib.Nat.{mul-le-mul_right}
use minus_sync.Ignore.{
  turn, restore, byte_turn, follow, glob_loop, glob_match, behind_stars, star_turn, save_next,
}
use minus_sync.Ignore.Spec.{
  describes, describes-byte, describes-star, match_byte, any_suffix, IsSingle,
}

any_suffix_self :
    (test : Bytes → Bool) (name : Bytes) → test name ≡ true → any_suffix test name ≡ true
unfolding any_suffix
any_suffix_self test [] h = h
any_suffix_self test (d ∷ name) h = rw h refl

any_suffix-tail :
    (test : Bytes → Bool) (d : ℕ) (name : Bytes)
    → any_suffix test name ≡ true
    → any_suffix test (d ∷ name) ≡ true
unfolding any_suffix
any_suffix-tail test d name h = ground (arith, h)

any_suffix_twice :
    (test : Bytes → Bool) (name : Bytes)
    → any_suffix (any_suffix test) name ≡ true
    → any_suffix test name ≡ true
unfolding any_suffix
any_suffix_twice test [] h = h
any_suffix_twice test (d ∷ name) h = elim (Bool-cases (any_suffix test (d ∷ name))) [
  | inl found ↦ found
  | inr missing ↦ any_suffix-tail test d name (any_suffix_twice test name (rw missing at h))
]

-- A match of a pattern with a byte in front is a match behind that byte.
any_suffix-byte :
    (c : ℕ) (pattern : Bytes) (d : ℕ) (name : Bytes)
    → (c == 42) ≡ false
    → any_suffix (describes (c ∷ pattern)) (d ∷ name) ≡ true
    → any_suffix (describes pattern) name ≡ true
unfolding any_suffix match_byte
any_suffix-byte c pattern d [] other h =
    ground (arith, describes-byte c pattern (d ∷ []) other, describes-byte c pattern [] other)
any_suffix-byte c pattern d (e ∷ rest) other h = elim (Bool-cases (describes pattern (e ∷ rest))) [
  | inl here ↦ any_suffix_self (describes pattern) (e ∷ rest) here
  | inr missing ↦ any_suffix-tail (describes pattern) e rest (
      any_suffix-byte c pattern e rest other
        (ground (arith, describes-byte c pattern (d ∷ e ∷ rest) other)))
]

-- What the saved place can still find.
abbrev resumed : Option (Bytes × Bytes) → Bool
resumed none = false
resumed (some (pattern, name)) = describes pattern name

-- The saved place stands at a `*`, and what it can find, the pattern can find further on.
data IsSaved (bound : ℕ) (pattern name : Bytes) : Option (Bytes × Bytes) → Type 0 where
  unsaved : IsSaved bound pattern name none
  saved :
      (back rest : Bytes)
      → IsSingle (42 ∷ back)
      → length back < bound
      → length name ≤ suc (length rest)
      → (any_suffix (describes back) rest ≡ true → any_suffix (describes pattern) name ≡ true)
      → IsSaved bound pattern name (some (42 ∷ back, rest))

-- The turns that remain: the whole pattern once for each byte that a `*` can still take.
abbrev budget : ℕ → Bytes → Option (Bytes × Bytes) → ℕ
budget turns name none = length name * turns
budget turns name (some (back, rest)) = suc (length rest) * turns

abbrev Decides : ℕ → ℕ → Type 0
Decides bound fuel =
    (pattern name : Bytes) (next : Option (Bytes × Bytes))
    → IsSingle pattern
    → length pattern ≤ bound
    → IsSaved bound pattern name next
    → budget (bound + 2) name next + length pattern < fuel
    → glob_loop fuel pattern name next ≡ some (describes pattern name || resumed next)

-- The new saved place.
save_next-resumed :
    (pattern name : Bytes)
    → (describes pattern name || resumed (save_next (42 ∷ pattern) name))
      ≡ any_suffix (describes pattern) name
unfolding save_next any_suffix
save_next-resumed pattern [] = ground arith
save_next-resumed pattern (d ∷ name) = rw (describes-star pattern name) refl

save_next-IsSaved :
    (bound : ℕ) (pattern name : Bytes)
    → IsSingle (42 ∷ pattern)
    → length pattern < bound
    → IsSaved bound pattern name (save_next (42 ∷ pattern) name)
unfolding save_next
save_next-IsSaved bound pattern [] single short = unsaved
save_next-IsSaved bound pattern (d ∷ name) single short =
    saved pattern name single short (omega arith) (any_suffix-tail (describes pattern) d name)

-- The old one is not missed.
resumed-absorbed :
    (bound : ℕ) (pattern name : Bytes) (next : Option (Bytes × Bytes))
    → IsSaved bound (42 ∷ pattern) name next
    → (any_suffix (describes pattern) name || resumed next) ≡ any_suffix (describes pattern) name
resumed-absorbed bound pattern name next unsaved = ground arith
resumed-absorbed bound pattern name next (saved back rest single short near later) =
    elim (Bool-cases (any_suffix (describes back) rest)) [
      | inl found ↦
          let taken : any_suffix (describes pattern) name ≡ true =
            any_suffix_twice (describes pattern) name
              (rw (fun_ext (describes-star pattern)) at (later found)) in
          rw taken refl
      | inr lost ↦ rw (describes-star back rest, lost) (ground arith)
    ]

save_next-budget :
    (turns : ℕ) (pattern name : Bytes)
    → budget turns name (save_next pattern name) ≡ length name * turns
unfolding save_next
save_next-budget turns pattern [] = refl
save_next-budget turns pattern (d ∷ name) = refl

Decides-star :
    (bound fuel : ℕ) (pattern name : Bytes)
    → Decides bound fuel
    → IsSingle (42 ∷ pattern)
    → length pattern < bound
    → length name * (bound + 2) + length pattern < fuel
    → follow (glob_loop fuel) (star_turn (behind_stars pattern) pattern name)
      ≡ some (any_suffix (describes pattern) name)
unfolding follow star_turn
Decides-star bound fuel pattern name decides single short enough = rw (single.0 refl) (
    decides pattern name (save_next (42 ∷ pattern) name) single.1 (omega arith)
      (save_next-IsSaved bound pattern name single short)
      (rw (save_next-budget (bound + 2) (42 ∷ pattern) name) enough)
    ∙ ap some (save_next-resumed pattern name))

-- Without a saved place the loop ends; with one it takes up the `*` again.
Decides-restore :
    (bound fuel : ℕ) (pattern name : Bytes) (next : Option (Bytes × Bytes))
    → ((k : ℕ) → k < fuel → Decides bound k)
    → IsSaved bound pattern name next
    → budget (bound + 2) name next ≤ fuel
    → follow (glob_loop fuel) (restore next) ≡ some (resumed next)
unfolding follow restore
Decides-restore bound fuel pattern name next below unsaved enough = refl
Decides-restore bound zero pattern name next below (saved back rest single short near later)
      enough =
    absurd (omega arith)
Decides-restore bound (suc fuel) pattern name next below (saved back rest single short near later)
      enough =
    unfold glob_loop turn in
    Decides-star bound fuel back rest (below fuel (omega arith)) single short (omega arith)
    ∙ ap some (sym (describes-star back rest))

-- One turn that takes a byte keeps the saved place in order.
IsSaved-byte :
    (bound c : ℕ) (pattern : Bytes) (d : ℕ) (name : Bytes) (next : Option (Bytes × Bytes))
    → (c == 42) ≡ false
    → IsSaved bound (c ∷ pattern) (d ∷ name) next
    → IsSaved bound pattern name next
IsSaved-byte bound c pattern d name next other unsaved = unsaved
IsSaved-byte bound c pattern d name next other (saved back rest single short near later) =
    saved back rest single short (omega arith)
      (λ h. any_suffix-byte c pattern d name other (later h))

budget-star :
    (bound turns : ℕ) (pattern name : Bytes) (next : Option (Bytes × Bytes))
    → IsSaved bound pattern name next
    → length name * turns ≤ budget turns name next
budget-star bound turns pattern name next unsaved = omega arith
budget-star bound turns pattern name next (saved back rest single short near later) =
    mul-le-mul_right turns near

budget-byte :
    (bound turns d : ℕ) (pattern name : Bytes) (next : Option (Bytes × Bytes))
    → IsSaved bound pattern (d ∷ name) next
    → budget turns name next ≤ budget turns (d ∷ name) next
budget-byte bound turns d pattern name next unsaved = omega arith
budget-byte bound turns d pattern name next (saved back rest single short near later) = omega arith

-- The equation that `Decides` states, with all but the place in the pattern and the name fixed.
abbrev Decided : ℕ → ℕ → Bytes → Bytes → Option (Bytes × Bytes) → Type 0
Decided bound fuel pattern name next =
    IsSingle pattern
    → length pattern ≤ bound
    → IsSaved bound pattern name next
    → budget (bound + 2) name next + length pattern < suc fuel
    → glob_loop (suc fuel) pattern name next ≡ some (describes pattern name || resumed next)

Decided-star :
    (bound fuel : ℕ) (pattern name : Bytes) (next : Option (Bytes × Bytes))
    → Decides bound fuel
    → Decided bound fuel (42 ∷ pattern) name next
unfolding glob_loop turn
Decided-star bound fuel pattern name next decides single short safe enough =
    Decides-star bound fuel pattern name decides single (omega arith)
      (omega (arith, budget-star bound (bound + 2) (42 ∷ pattern) name next safe))
    ∙ ap some (
        sym (resumed-absorbed bound pattern name next safe)
        ∙ ap (λ b. b || resumed next) (sym (describes-star pattern name)))

Decided-byte :
    (bound fuel c : ℕ) (pattern name : Bytes) (next : Option (Bytes × Bytes))
    → ((k : ℕ) → k < suc fuel → Decides bound k)
    → (c == 42) ≡ false
    → Decided bound fuel (c ∷ pattern) name next
unfolding glob_loop turn byte_turn match_byte
Decided-byte bound fuel c pattern [] next below other single short safe enough =
    rw (other, describes-byte c pattern [] other)
      (Decides-restore bound fuel (c ∷ pattern) [] next (λ k h. below k (omega arith)) safe
        (omega arith))
Decided-byte bound fuel c pattern (d ∷ name) next below other single short safe enough =
    elim (Bool-cases (c == 63 || d == c)) [
      | inl same ↦
          rw (other, describes-byte c pattern (d ∷ name) other, same)
            (below fuel (omega arith) pattern name next single.1 (omega arith)
              (IsSaved-byte bound c pattern d name next other safe)
              (omega (arith, budget-byte bound (bound + 2) d (c ∷ pattern) name next safe)))
      | inr different ↦
          rw (other, describes-byte c pattern (d ∷ name) other, different)
            (Decides-restore bound fuel (c ∷ pattern) (d ∷ name) next (λ k h. below k (omega arith))
              safe (omega arith))
    ]

Decides-turn :
    (bound fuel : ℕ) → ((k : ℕ) → k < suc fuel → Decides bound k) → Decides bound (suc fuel)
unfolding glob_loop turn describes
Decides-turn bound fuel below [] [] next single short safe enough = refl
Decides-turn bound fuel below [] (d ∷ name) next single short safe enough =
    Decides-restore bound fuel [] (d ∷ name) next (λ k h. below k (omega arith)) safe (omega arith)
Decides-turn bound fuel below (c ∷ pattern) name next single short safe enough =
    elim (Bool-cases (c == 42)) [
      | inl star ↦
          subst (λ x. Decided bound fuel (x ∷ pattern) name next) (sym ((==_iff c 42).0 star))
            (Decided-star bound fuel pattern name next (below fuel (omega arith))) single short safe
            enough
      | inr other ↦ Decided-byte bound fuel c pattern name next below other single short safe enough
    ]

Decides-below : (bound limit fuel : ℕ) → fuel < limit → Decides bound fuel
Decides-below bound zero fuel h = absurd (omega arith)
Decides-below bound (suc limit) zero h =
    λ pattern name next single short safe enough. absurd (omega arith)
Decides-below bound (suc limit) (suc fuel) h =
    Decides-turn bound fuel (λ k lt. Decides-below bound limit k (omega arith))

-- The turns that are enough for a pattern and a name.
abbrev pub enough_turns : Bytes → Bytes → ℕ
enough_turns pattern name = suc (length name * (length pattern + 2) + length pattern)

-- For a pattern in which no `*` stands in front of another, `globMatch` returns, and it returns
-- whether the pattern describes the name: a name with `len(name)` bytes takes at most
-- `len(name) * (len(pattern) + 2) + len(pattern) + 1` turns.
pub glob_match-describes :
    (fuel : ℕ) (pattern name : Bytes)
    → IsSingle pattern
    → enough_turns pattern name ≤ fuel
    → glob_match fuel pattern name ≡ some (describes pattern name)
unfolding glob_match
glob_match-describes fuel pattern name single enough =
    Decides-below (length pattern) (suc fuel) fuel (omega arith) pattern name none single
      (omega arith) unsaved (omega arith)
    ∙ ap some (ground arith)
