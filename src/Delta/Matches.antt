-- ===== src/Delta/Matches.antt =====
-- What `findBestMatch` returns: a stretch of the base that has the hash of the target's first
-- chunk and, behind that chunk, the bytes of the target.
use minus_sync.Prelude.{
  ℕ, zero, suc, ◌+◌, ◌-◌, ◌≤◌, Bytes, List, [], ◌∷◌, length, take, drop, ltb, ◌==◌, ◌≡◌, refl, ap,
  ◌∙◌, arith, inl, inr, Bool-cases, All, All-append, length-drop,
}
use minus_sync.Delta.Compute.{
  chunk_size, rolling_hash32, HashIndex, append_offset, index_loop, build_hash_index, Match,
  no_match, extend_match, match_at, better, best_loop, find_best_match,
}

-- An offset that the index may hold under the hash `h`.
abbrev IsOffset : Bytes → ℕ → ℕ → Type 0
IsOffset base h off =
    (off + chunk_size ≤ length base) × (rolling_hash32 (take chunk_size (drop off base)) ≡ h)

-- Every offset in the index is that of a whole chunk with the hash under which it stands.
pub record IsIndex (base : Bytes) (index : HashIndex) : Type 0 where
  pub at : (h : ℕ) → All (IsOffset base h) (index h)

append_offset-IsIndex :
    {base : Bytes} {index : HashIndex} (i : ℕ)
    → i + chunk_size ≤ length base
    → IsIndex base index
    → IsIndex base (append_offset index (rolling_hash32 (take chunk_size (drop i base))) i)
unfolding append_offset
append_offset-IsIndex {base} {index} i fits v = record {
  at = λ h. elim (Bool-cases (h == rolling_hash32 (take chunk_size (drop i base)))) [
    | inl same ↦
        rw same
          (All-append (IsOffset base h) (index h) (i ∷ []) (v.at h) ((fits, ground arith), tt))
    | inr other ↦ rw other (v.at h)
  ];
}

index_loop-IsIndex :
    {base : Bytes} (rounds i : ℕ) {index : HashIndex}
    → i + rounds + chunk_size ≤ length base + 1
    → IsIndex base index
    → IsIndex base (index_loop base rounds i index)
unfolding index_loop
index_loop-IsIndex zero i fits v = v
index_loop-IsIndex (suc rounds) i fits v =
    index_loop-IsIndex rounds (i + 1) (omega arith) (append_offset-IsIndex i (omega arith) v)

pub build_hash_index-IsIndex : (base : Bytes) → IsIndex base (build_hash_index base)
unfolding build_hash_index
build_hash_index-IsIndex base = elim (Bool-cases (ltb (length base) chunk_size)) [
  | inl short ↦ rw short (record { at = λ h. tt })
  | inr long ↦
      rw long (
        index_loop-IsIndex (length base - chunk_size + 1) 0 (ground arith)
          (record { at = λ h. tt }))
]

-- How far a match was extended behind its chunk: both sides have these `more` bytes, and agree.
record Extends (base target : Bytes) (from to : ℕ) : Type 0 where
  more : ℕ
  size_eq : to ≡ from + more
  in_base : more ≤ length base
  in_target : more ≤ length target
  agree : take more base ≡ take more target

Extends-cons :
    (b : ℕ) {base target : Bytes} {from to t : ℕ}
    → b ≡ t
    → Extends base target (from + 1) to
    → Extends (b ∷ base) (t ∷ target) from to
Extends-cons b {base} {target} e x = record {
  more = suc x.more;
  size_eq = omega (arith, x.size_eq);
  in_base = omega (arith, x.in_base);
  in_target = omega (arith, x.in_target);
  agree = ap (◌∷◌ b) x.agree ∙ ap (λ c. c ∷ take x.more target) e;
}

Extends-none : (base target : Bytes) (from : ℕ) → Extends base target from from
Extends-none base target from = record {
  more = 0;
  size_eq = omega arith;
  in_base = omega arith;
  in_target = omega arith;
  agree = refl;
}

extend_match-Extends :
    (base target : Bytes) (size : ℕ) → Extends base target size (extend_match base target size)
unfolding extend_match
extend_match-Extends (b ∷ base) (t ∷ target) size = elim (Bool-cases (b == t)) [
  | inl same ↦ rw same (Extends-cons b (ground arith) (extend_match-Extends base target (size + 1)))
  | inr other ↦ rw other (Extends-none (b ∷ base) (t ∷ target) size)
]
extend_match-Extends [] target size = Extends-none [] target size
extend_match-Extends (b ∷ base) [] size = Extends-none (b ∷ base) [] size

-- A match found in `base` for `target`.
pub record IsMatch (base target : Bytes) (m : Match) : Type 0 where
  pub chunk_fits : m.offset + chunk_size ≤ length base
  pub same_hash :
      rolling_hash32 (take chunk_size (drop m.offset base))
      ≡ rolling_hash32 (take chunk_size target)
  pub more : ℕ
  pub size_eq : m.size ≡ chunk_size + more
  pub in_base : m.offset + m.size ≤ length base
  pub in_target : m.size ≤ length target
  pub agree : take more (drop (m.offset + chunk_size) base) ≡ take more (drop chunk_size target)

match_at-IsMatch :
    (base target : Bytes) (off : ℕ)
    → chunk_size ≤ length target
    → IsOffset base (rolling_hash32 (take chunk_size target)) off
    → IsMatch base target (match_at base target off)
unfolding match_at
match_at-IsMatch base target off long (fits, same) =
    let x =
      extend_match-Extends (drop (off + chunk_size) base) (drop chunk_size target) chunk_size in
    record {
      chunk_fits = fits;
      same_hash = same;
      more = x.more;
      size_eq = x.size_eq;
      in_base = omega (arith, x.size_eq, x.in_base, length-drop (off + chunk_size) base);
      in_target = omega (arith, x.size_eq, x.in_target, length-drop chunk_size target);
      agree = x.agree;
    }

-- Either nothing was found, or a match.
pub data IsFound (base target : Bytes) (m : Match) : Type 0 where
  nothing : m ≡ no_match → IsFound base target m
  found : IsMatch base target m → IsFound base target m

better-IsFound :
    {base target : Bytes} (best m : Match)
    → IsFound base target best
    → IsMatch base target m
    → IsFound base target (better best m)
unfolding better
better-IsFound best m b f = elim (Bool-cases (ltb best.size m.size)) [
  | inl longer ↦ rw longer (found f)
  | inr shorter ↦ rw shorter b
]

best_loop-IsFound :
    (base target : Bytes) (best : Match) (offsets : List ℕ)
    → chunk_size ≤ length target
    → IsFound base target best
    → All (IsOffset base (rolling_hash32 (take chunk_size target))) offsets
    → IsFound base target (best_loop base target best offsets)
unfolding best_loop
best_loop-IsFound base target best [] long b h = b
best_loop-IsFound base target best (off ∷ offsets) long b (h, hs) =
    best_loop-IsFound base target (better best (match_at base target off)) offsets long
      (better-IsFound best _ b (match_at-IsMatch base target off long h)) hs

pub find_best_match-IsFound :
    (base target : Bytes) {index : HashIndex}
    → IsIndex base index
    → IsFound base target (find_best_match base target index)
unfolding find_best_match
find_best_match-IsFound base target {index} v = elim (Bool-cases (ltb (length target) chunk_size)) [
  | inl short ↦ rw short (nothing refl)
  | inr long ↦ rw long (
      best_loop-IsFound base target no_match (index (rolling_hash32 (take chunk_size target)))
        (ground arith) (nothing refl) (v.at (rolling_hash32 (take chunk_size target))))
]
