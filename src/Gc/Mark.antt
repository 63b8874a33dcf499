-- ===== src/Gc/Mark.antt =====
-- internal/gc/gc.go: `markReachable` marks exactly what can be reached.
use minus_sync.Prelude.{
  ℕ, zero, suc, true, Option, none, some, List, [], ◌∷◌, Bytes, All, ◌≡◌, refl, sym, subst, ◌⊎◌,
  ◌↔◌, inl, inr, Bool-cases, Option-cases,
}
use mathlib.Core.List.{Memᴰ}
use minus_sync.Hash.{Hash, hex}
use minus_sync.Gc.Keys.{hex_text_injective, contains-cons, contains_behind, contains_first}
use minus_sync.Gc.{contains, mark_all, mark}

module _ (children : Hash → List Hash) where
  -- `k` can be reached from `h`.
  pub data Reaches : Hash → Hash → Type 0 where
    here : {h : Hash} → Reaches h h
    onward : {h c k : Hash} → Memᴰ c (children h) → Reaches c k → Reaches h k

  abbrev pub ReachedFrom : List Hash → Hash → Type 0
  ReachedFrom targets k = (t : Hash) × Memᴰ t targets × Reaches t k

some_injective : {a b : List Bytes} → ◌≡◌ {A = Option (List Bytes)} (some a) (some b) → a ≡ b
some_injective e = cc

none-ne-some : {a : List Bytes} → ◌≡◌ {A = Option (List Bytes)} none (some a) → ⊥
none-ne-some e = cc

abbrev pub IsMarked : List Bytes → Hash → Type 0
IsMarked marked k = contains (hex k) marked ≡ true

pub All-Mem :
    (P : Hash → Type 0) {h : Hash} {hashes : List Hash} → Memᴰ h hashes → All P hashes → P h
All-Mem P (Memᴰ.head e) (p, rest) = subst P (sym e) p
All-Mem P (Memᴰ.tail m) (p, rest) = All-Mem P m rest

module _ (children : Hash → List Hash) where
  -- What the calls on `targets` add to the marks.
  pub record Marks (marked : List Bytes) (targets : List Hash) (after : List Bytes) : Type 0 where
    pub grows : (key : Bytes) → contains key marked ≡ true → contains key after ≡ true
    pub covers : All (IsMarked after) targets
    pub closed :
        (k : Hash) → IsMarked after k → IsMarked marked k ⊎ All (IsMarked after) (children k)
    pub sound : (k : Hash) → IsMarked after k → IsMarked marked k ⊎ ReachedFrom children targets k

  grow :
      (marked after : List Bytes) (hashes : List Hash)
      → ((key : Bytes) → contains key marked ≡ true → contains key after ≡ true)
      → All (IsMarked marked) hashes
      → All (IsMarked after) hashes
  grow marked after [] grows h = tt
  grow marked after (k ∷ hashes) grows (p, h) = (grows (hex k) p, grow marked after hashes grows h)

  Marks-nil : (marked : List Bytes) → Marks marked [] marked
  Marks-nil marked = record {
    grows = λ key e. e;
    covers = tt;
    closed = λ k e. inl e;
    sound = λ k e. inl e;
  }

  Marks-cons :
      {marked between after : List Bytes} (h : Hash) (hashes : List Hash)
      → Marks marked (h ∷ []) between
      → Marks between hashes after
      → Marks marked (h ∷ hashes) after
  Marks-cons {marked} {between} {after} h hashes first rest = record {
    grows = λ key e. rest.grows key (first.grows key e);
    covers = (rest.grows (hex h) first.covers.0, rest.covers);
    closed = λ k e. elim (rest.closed k e) [
      | inl before ↦ elim (first.closed k before) [
        | inl old ↦ inl old
        | inr new ↦ inr (grow between after (children k) rest.grows new)
      ]
      | inr new ↦ inr new
    ];
    sound = λ k e. elim (rest.sound k e) [
      | inl before ↦ elim (first.sound k before) [
        | inl old ↦ inl old
        | inr (t, mem, path) ↦ inr (t, widen mem, path)
      ]
      | inr (t, mem, path) ↦ inr (t, Memᴰ.tail mem, path)
    ];
  }
    where
      widen : {t : Hash} → Memᴰ t (h ∷ []) → Memᴰ t (h ∷ hashes)
      widen (Memᴰ.head e) = Memᴰ.head e
      widen (Memᴰ.tail m) = elim m [ ]

  Marks-mark_all :
      (go : Hash → List Bytes → Option (List Bytes))
      → ((h : Hash) (marked after : List Bytes)
          → go h marked ≡ some after
          → Marks marked (h ∷ []) after)
      → (hashes : List Hash) (marked after : List Bytes) → mark_all go hashes marked ≡ some after
      → Marks marked hashes after
  unfolding mark_all
  Marks-mark_all go goes [] marked after e =
      subst (λ m. Marks marked [] m) (some_injective e) (Marks-nil marked)
  Marks-mark_all go goes (h ∷ hashes) marked after e = elim (Option-cases (go h marked)) [
    | inl out ↦ absurd (none-ne-some (rw out at e))
    | inr (between, found) ↦
        Marks-cons h hashes (goes h marked between found)
          (Marks-mark_all go goes hashes between after (rw found at e))
  ]

  -- A hash that was marked before stays as it is.
  Marks-marked : (h : Hash) (marked : List Bytes) → IsMarked marked h → Marks marked (h ∷ []) marked
  Marks-marked h marked e = record {
    grows = λ key e. e;
    covers = (e, tt);
    closed = λ k e. inl e;
    sound = λ k e. inl e;
  }

  -- The mark of `h` comes first, then those of its children.
  Marks-children :
      (h : Hash) (marked after : List Bytes)
      → Marks (hex h ∷ marked) (children h) after
      → Marks marked (h ∷ []) after
  Marks-children h marked after deeper = record {
    grows = λ key e. deeper.grows key (contains_behind (hex h) key marked e);
    covers = (deeper.grows (hex h) (contains_first (hex h) marked), tt);
    closed = λ k e. elim (deeper.closed k e) [
      | inl before ↦ elim (contains-cons (hex h) (hex k) marked before) [
        | inl same ↦ inr (
            subst (λ x. All (IsMarked after) (children x)) (hex_text_injective h k same)
              deeper.covers)
        | inr old ↦ inl old
      ]
      | inr new ↦ inr new
    ];
    sound = λ k e. elim (deeper.sound k e) [
      | inl before ↦ elim (contains-cons (hex h) (hex k) marked before) [
        | inl same ↦ inr (
          h,
          Memᴰ.head refl,
          subst (λ x. Reaches children h x) (hex_text_injective h k same) here,
        )
        | inr old ↦ inl old
      ]
      | inr (c, mem, path) ↦ inr (h, Memᴰ.head refl, onward mem path)
    ];
  }

  nothing : (k : Hash) → IsMarked [] k → ⊥
  unfolding contains
  nothing k e = cc

  pub Marks-mark :
      (fuel : ℕ) (h : Hash) (marked after : List Bytes)
      → mark children fuel h marked ≡ some after
      → Marks marked (h ∷ []) after
  unfolding mark
  Marks-mark zero h marked after e = absurd (cc)
  Marks-mark (suc fuel) h marked after e = elim (Bool-cases (contains (hex h) marked)) [
    | inl old ↦
        subst (λ m. Marks marked (h ∷ []) m) (some_injective (rw old at e))
          (Marks-marked h marked old)
    | inr new ↦ Marks-children h marked after (
        Marks-mark_all (mark children fuel) (Marks-mark fuel) (children h) (hex h ∷ marked) after
          (rw new at e))
  ]

  -- Closed marks hold whatever can be reached from one of them.
  IsMarked-Reaches :
      (after : List Bytes)
      → ((k : Hash) → IsMarked after k → All (IsMarked after) (children k))
      → {h k : Hash} → Reaches children h k
      → IsMarked after h
      → IsMarked after k
  IsMarked-Reaches after closed here e = e
  IsMarked-Reaches after closed {h} (onward mem path) e =
      IsMarked-Reaches after closed path (All-Mem (IsMarked after) mem (closed h e))

  -- Whatever roots `Collect` marks, and with whatever fuel they are marked: exactly the hashes that
  -- can be reached from a root are marked.
  pub mark_all-Reaches :
      (fuel : ℕ) (roots : List Hash) (after : List Bytes) (k : Hash)
      → mark_all (mark children fuel) roots [] ≡ some after
      → IsMarked after k ↔ ReachedFrom children roots k
  mark_all-Reaches fuel roots after k e =
      let marks = Marks-mark_all (mark children fuel) (Marks-mark fuel) roots [] after e in
      (
        (λ marked. elim (marks.sound k marked) [
          | inl old ↦ absurd (nothing k old)
          | inr reached ↦ reached
        ]),
        (λ reached.
            IsMarked-Reaches after
              (λ h marked. elim (marks.closed h marked) [
                | inl old ↦ absurd (nothing h old)
                | inr new ↦ new
              ])
              reached.2 (All-Mem (IsMarked after) reached.1 marks.covers)),
      )
