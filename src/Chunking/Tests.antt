-- ===== src/Chunking/Tests.antt =====
-- The chunker on small inputs.
use minus_sync.Prelude.{ℕ, List, [], ◌∷◌, Bytes, replicate, length, ok, ◌≡◌, refl, arith, ◌+◌}
use minus_sync.Hash.{Hash, zero_hash}
use minus_sync.Chunking.{ChunkConfig, default_chunk_config, Chunk, gear_table, compute_masks, split}
use minus_sync.Chunking.Tiles.{IsConfig, Tiles, split-Tiles}
use minus_sync.Chunking.Plan.{missing, build_sync_plan, build_sync_plan-missing}
use minus_sync.Chunking.Plan.{is_member}
use minus_sync.Chunking.Plan.{plan_chunk}
use minus_sync.Hash.{hex}
use minus_sync.Prelude.{bytes_equal}

default_masks : compute_masks default_chunk_config ≡ 16383 ∷ 4095 ∷ 1023 ∷ []
unfolding compute_masks
default_masks = refl

gear_table_size : length gear_table ≡ 256
unfolding gear_table
gear_table_size = refl

abbrev small_config : ChunkConfig
small_config = record { min_size = 1; avg_size = 16; max_size = 4 }

abbrev zeros : Bytes → Hash
zeros data_bytes = zero_hash

small_config-IsConfig : IsConfig small_config
small_config-IsConfig = record { ordered = omega arith; positive = omega arith; fits = omega arith }

split-Tiles_example :
    (chunks : List Chunk) × (split zeros small_config (1 ∷ 2 ∷ 3 ∷ 4 ∷ 5 ∷ 6 ∷ []) ≡ ok chunks)
    × Tiles zeros small_config 0 (1 ∷ 2 ∷ 3 ∷ 4 ∷ 5 ∷ 6 ∷ []) chunks
split-Tiles_example =
    split-Tiles zeros small_config (1 ∷ 2 ∷ 3 ∷ 4 ∷ 5 ∷ 6 ∷ []) small_config-IsConfig (omega arith)

abbrev chunk_of : ℕ → Chunk
chunk_of n = record { offset = 0; size = 1; hash = replicate 32 n; contents = n ∷ [] }

build_sync_plan-missing_test :
    ((build_sync_plan (chunk_of 1 ∷ chunk_of 2 ∷ []) (replicate 32 1 ∷ [])).missing_chunks
      ≡ missing (replicate 32 1 ∷ []) (chunk_of 1 ∷ chunk_of 2 ∷ []))
    × ((build_sync_plan (chunk_of 1 ∷ chunk_of 2 ∷ []) (replicate 32 1 ∷ [])).total_chunks ≡ 2)
    × ((build_sync_plan (chunk_of 1 ∷ chunk_of 2 ∷ []) (replicate 32 1 ∷ [])).reused_chunks
          + length (missing (replicate 32 1 ∷ []) (chunk_of 1 ∷ chunk_of 2 ∷ []))
        ≡ 2)
build_sync_plan-missing_test =
    build_sync_plan-missing (chunk_of 1 ∷ chunk_of 2 ∷ []) (replicate 32 1 ∷ []) (omega arith)
      (omega arith)

planned :
    build_sync_plan (chunk_of 1 ∷ chunk_of 2 ∷ []) (replicate 32 1 ∷ [])
    ≡ record { missing_chunks = chunk_of 2 ∷ []; total_chunks = 2; reused_chunks = 1 }
unfolding build_sync_plan plan_chunk is_member bytes_equal hex
planned = refl
