-- ===== src/Chunking/Tiles.antt =====
-- `Split` cuts the data into chunks that lie behind one another, within the bounds of the
-- configuration.
use minus_sync.Prelude.{
  ℕ, zero, suc, ◌+◌, ◌-◌, ◌%◌, ◌^◌, ◌<◌, ◌≤◌, false, List, [], ◌∷◌, ◌++◌, Bytes, length, take, drop,
  ltb, leb, if◌then◌else◌, ok, Bool-cases, lt→ltb, inl, inr, ◌⊎◌, ◌≡◌, refl, sym, ap, subst, ◌∙◌,
  arith, drop-drop, length-drop, length-take, take-append-drop,
}
use native.Mathlib.Decide.{dec_lt}
use minus_sync.Hash.{Hash}
use minus_sync.Delta.{slice}
use minus_sync.Chunking.{
  ChunkConfig, Chunk, find_loop, roll, any_mask, compute_masks, find_chunk_boundary, chunk_at,
  split_loop, split,
}

-- A configuration with which `Split` ends.
pub record IsConfig (cfg : ChunkConfig) : Type 0 where
  pub ordered : cfg.min_size ≤ cfg.max_size
  pub positive : 0 < cfg.max_size
  pub fits : cfg.max_size < 2 ^ 62

-- The chunks follow one another from `offset` on and make up the data: each is not empty and not
-- longer than the maximum, none but the last is shorter than the minimum, and each has the hash
-- of its contents.
abbrev pub Tiles : (compute : Bytes → Hash) → ChunkConfig → ℕ → Bytes → List Chunk → Type 0
Tiles compute cfg offset data_bytes [] = data_bytes ≡ []
Tiles compute cfg offset data_bytes (c ∷ chunks) =
    (rest : Bytes) × (data_bytes ≡ c.contents ++ rest)
    × (c ≡ chunk_at compute offset c.contents)
    × (0 < length c.contents)
    × (length c.contents ≤ cfg.max_size)
    × ((rest ≡ []) ⊎ (cfg.min_size ≤ length c.contents))
    × Tiles compute cfg (offset + length c.contents) rest chunks

find_loop-bounds :
    (masks : List ℕ) (max_end rolling_hash pos : ℕ) (rest : Bytes)
    → pos ≤ max_end
    → (find_loop masks max_end rolling_hash pos rest ≤ max_end)
      × (pos ≤ find_loop masks max_end rolling_hash pos rest)
      × (pos < max_end → pos < find_loop masks max_end rolling_hash pos rest)
unfolding find_loop
find_loop-bounds masks max_end h pos [] le = (omega arith, le, λ lt. lt)
find_loop-bounds masks max_end h pos (b ∷ rest) le = elim (Bool-cases (ltb pos max_end)) [
  | inl more ↦
      let lt : pos < max_end = ground arith in
      let (below, from, past) =
        find_loop-bounds masks max_end (roll h b) (pos + 1) rest (omega arith) in
      rw more (elim (Bool-cases (any_mask (roll h b) masks)) [
        | inl hit ↦ rw hit (omega arith, omega arith, λ _. omega arith)
        | inr miss ↦ rw miss (below, omega arith, λ _. omega arith)
      ])
  | inr finished ↦ rw finished (omega arith, le, λ lt. lt)
]

-- Where a chunk that starts at `offset` ends.
record IsBoundary (cfg : ChunkConfig) (offset data_len end : ℕ) : Type 0 where
  after : offset < end
  inside : end ≤ data_len
  at_most : end ≤ offset + cfg.max_size
  at_least : (end ≡ data_len) ⊎ (offset + cfg.min_size ≤ end)

-- What the search from the minimum on finds, with the maximum cut to the data.
find_loop-IsBoundary :
    (cfg : ChunkConfig) (offset data_len max_end rolling_hash : ℕ) (rest : Bytes)
    → IsConfig cfg
    → offset + cfg.min_size < data_len
    → (max_end ≡ data_len × max_end ≤ offset + cfg.max_size)
      ⊎ (max_end ≡ offset + cfg.max_size × max_end ≤ data_len)
    → IsBoundary cfg offset data_len
        (find_loop (compute_masks cfg) max_end rolling_hash (offset + cfg.min_size) rest)
find_loop-IsBoundary cfg offset data_len max_end h rest config long cap =
    let ordered = config.ordered in
    let positive = config.positive in
    let le : offset + cfg.min_size ≤ max_end = omega arith in
    let (below, from, past) =
      find_loop-bounds (compute_masks cfg) max_end h (offset + cfg.min_size) rest le in
    record {
      after = elim (dec_lt (offset + cfg.min_size) max_end) [
        | yes lt ↦ let more = past lt in omega arith
        | no ge ↦ omega arith
      ];
      inside = omega arith;
      at_most = omega arith;
      at_least = inr from;
    }

cap_cases :
    (data_len max_end : ℕ)
    → (((if ltb data_len max_end then data_len else max_end) ≡ data_len) × (data_len ≤ max_end))
      ⊎ (((if ltb data_len max_end then data_len else max_end) ≡ max_end) × (max_end ≤ data_len))
cap_cases data_len max_end = elim (Bool-cases (ltb data_len max_end)) [
  | inl lt ↦ rw lt (inl (refl, ground arith))
  | inr ge ↦ rw ge (inr (refl, ground arith))
]

find_chunk_boundary-IsBoundary :
    (cfg : ChunkConfig) (data_bytes : Bytes) (offset : ℕ)
    → IsConfig cfg
    → length data_bytes < 2 ^ 62
    → offset < length data_bytes
    → IsBoundary cfg offset (length data_bytes) (find_chunk_boundary cfg data_bytes offset)
unfolding find_chunk_boundary
find_chunk_boundary-IsBoundary cfg data_bytes offset config fits lt =
    let ordered = config.ordered in
    let small = config.fits in
    let min_end : (offset + cfg.min_size) % 2 ^ 64 ≡ offset + cfg.min_size = omega arith in
    let max_end : (offset + cfg.max_size) % 2 ^ 64 ≡ offset + cfg.max_size = omega arith in
    rw (min_end, max_end)
      (elim (Bool-cases (leb (length data_bytes) (offset + cfg.min_size))) [
        | inl last ↦
            let le : length data_bytes ≤ offset + cfg.min_size = ground arith in
            rw last (record {
              after = lt;
              inside = omega arith;
              at_most = omega arith;
              at_least = inl refl;
            })
        | inr longer ↦ rw longer (
            find_loop-IsBoundary cfg offset (length data_bytes) _ _ _ config (ground arith)
              (elim (cap_cases (length data_bytes) (offset + cfg.max_size)) [
                | inl (e, le) ↦ inl (e, omega arith)
                | inr (e, le) ↦ inr (e, omega arith)
              ]))
      ])

slice-inside :
    (data_bytes : Bytes) (offset end : ℕ)
    → offset ≤ end
    → slice data_bytes offset end ≡ ok (take (end - offset) (drop offset data_bytes))
unfolding slice
slice-inside data_bytes offset end le = ground arith

ltb-false : (a b : ℕ) → b ≤ a → ltb a b ≡ false
ltb-false a b h = ground arith

-- One turn of the loop.
split_loop-turn :
    (compute : Bytes → Hash) (cfg : ChunkConfig) (data_bytes : Bytes) (fuel offset : ℕ)
    (chunks : List Chunk)
    → offset < length data_bytes
    → offset ≤ find_chunk_boundary cfg data_bytes offset
    → split_loop compute cfg data_bytes fuel (find_chunk_boundary cfg data_bytes offset) ≡ ok chunks
    → split_loop compute cfg data_bytes (suc fuel) offset
      ≡ ok (
          chunk_at compute offset
            (take (find_chunk_boundary cfg data_bytes offset - offset) (drop offset data_bytes))
          ∷ chunks)
unfolding split_loop chunk_at
split_loop-turn compute cfg data_bytes fuel offset chunks lt le h =
    rw
      (
        slice-inside data_bytes offset (find_chunk_boundary cfg data_bytes offset) le,
        lt→ltb offset (length data_bytes) lt,
        h,
      )
      refl

-- Behind the end there is nothing.
split_loop-end :
    (compute : Bytes → Hash) (cfg : ChunkConfig) (data_bytes : Bytes) (fuel offset : ℕ)
    → length data_bytes ≤ offset
    → split_loop compute cfg data_bytes fuel offset ≡ ok []
unfolding split_loop
split_loop-end compute cfg data_bytes zero offset le =
    rw (ltb-false offset (length data_bytes) le) refl
split_loop-end compute cfg data_bytes (suc fuel) offset le =
    rw (ltb-false offset (length data_bytes) le) refl

drop_past : (n : ℕ) (xs : Bytes) → length xs ≤ n → drop n xs ≡ []
drop_past zero [] le = refl
drop_past (suc n) [] le = refl
drop_past zero (x ∷ xs) le = absurd (omega arith)
drop_past (suc n) (x ∷ xs) le = drop_past n xs (omega arith)

-- The chunk between two positions, and the rest behind it.
cut_between :
    (data_bytes : Bytes) (offset end : ℕ)
    → offset ≤ end
    → end ≤ length data_bytes
    → (length (take (end - offset) (drop offset data_bytes)) ≡ end - offset)
      × (drop offset data_bytes
          ≡ take (end - offset) (drop offset data_bytes) ++ drop end data_bytes)
cut_between data_bytes offset end le inside =
    let n = end - offset in
    let back : offset + n ≡ end = omega arith in
    (
      omega (arith, length-take n (drop offset data_bytes), length-drop offset data_bytes),
      sym (take-append-drop n (drop offset data_bytes))
          ∙ ap (λ rest. take n (drop offset data_bytes) ++ rest)
              (drop-drop offset n data_bytes ∙ ap (λ k. drop k data_bytes) back),
    )

split_loop-Tiles :
    (compute : Bytes → Hash) (cfg : ChunkConfig) (data_bytes : Bytes) (fuel offset : ℕ)
    → IsConfig cfg
    → length data_bytes < 2 ^ 62
    → length data_bytes ≤ offset + fuel
    → (chunks : List Chunk) × (split_loop compute cfg data_bytes fuel offset ≡ ok chunks)
      × Tiles compute cfg offset (drop offset data_bytes) chunks
unfolding chunk_at
split_loop-Tiles compute cfg data_bytes zero offset config fits enough =
    let past : length data_bytes ≤ offset = omega arith in
    ([], split_loop-end compute cfg data_bytes zero offset past, drop_past offset data_bytes past)
split_loop-Tiles compute cfg data_bytes (suc fuel) offset config fits enough =
    elim (dec_lt offset (length data_bytes)) [
      | no ge ↦
          let past : length data_bytes ≤ offset = omega arith in
          (
            [],
            split_loop-end compute cfg data_bytes (suc fuel) offset past,
            drop_past offset data_bytes past,
          )
      | yes lt ↦
          let end = find_chunk_boundary cfg data_bytes offset in
          let boundary = find_chunk_boundary-IsBoundary cfg data_bytes offset config fits lt in
          let after : offset < end = boundary.after in
          let inside : end ≤ length data_bytes = boundary.inside in
          let at_most : end ≤ offset + cfg.max_size = boundary.at_most in
          let at_least = boundary.at_least in
          let (chunks, returned, tiles) =
            split_loop-Tiles compute cfg data_bytes fuel end config fits (omega arith) in
          let (size, cut) = cut_between data_bytes offset end (omega arith) inside in
          let next : end ≡ offset + length (take (end - offset) (drop offset data_bytes)) =
            omega arith in
          (
            chunk_at compute offset (take (end - offset) (drop offset data_bytes)) ∷ chunks,
            split_loop-turn compute cfg data_bytes fuel offset chunks lt (omega arith) returned,
            (
              drop end data_bytes,
              cut,
              refl,
              omega arith,
              omega arith,
              elim at_least [
                | inl e ↦ inl (drop_past end data_bytes (omega arith))
                | inr le ↦ inr (omega arith)
              ],
              subst (λ o. Tiles compute cfg o (drop end data_bytes) chunks) next tiles,
            ),
          )
    ]

-- `Split` ends and returns chunks that follow one another and make up the data: none is empty or
-- longer than the maximum, none but the last is shorter than the minimum, and each has the hash
-- of its contents. The minimum is at most the maximum, which is not zero, and the maximum and
-- the length of the data are below 2^62.
pub split-Tiles :
    (compute : Bytes → Hash) (cfg : ChunkConfig) (data_bytes : Bytes)
    → IsConfig cfg
    → length data_bytes < 2 ^ 62
    → (chunks : List Chunk) × (split compute cfg data_bytes ≡ ok chunks)
      × Tiles compute cfg 0 data_bytes chunks
unfolding split
split-Tiles compute cfg data_bytes config fits =
    split_loop-Tiles compute cfg data_bytes (length data_bytes) 0 config fits (omega arith)
