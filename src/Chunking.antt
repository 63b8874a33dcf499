-- ===== src/Chunking.antt =====
-- internal/delta/chunk.go and fastcdc.go: content-defined chunking. Offsets are `uint64`, with
-- their wrap-around; SHA-256 is the parameter `compute`.
pub mod Tiles
pub mod Plan
mod Tests
use Prim.Native.Nat.{bit_and}
use minus_sync.Prelude.{
  ℕ, zero, suc, ◌+◌, ◌-◌, ◌*◌, ◌/◌, ◌%◌, ◌^◌, Bool, true, false, ◌||◌, List, [], ◌∷◌, Bytes, length,
  get_or, take, drop, ltb, leb, ◌==◌, if◌then◌else◌, Result, ok, err, panic, ◌>>=◌,
}
use minus_sync.Hash.{Hash}
use minus_sync.Delta.{Error, out_of_fuel, slice}

pub record ChunkConfig : Type 0 where
  pub min_size : ℕ
  pub avg_size : ℕ
  pub max_size : ℕ

abbrev pub default_chunk_config : ChunkConfig
default_chunk_config = record { min_size = 2048; avg_size = 8192; max_size = 32768 }

pub record Chunk : Type 0 where
  pub offset : ℕ
  pub size : ℕ
  pub hash : Hash
  pub contents : Bytes

-- The gear table, from a linear congruential generator.
unfoldable pub gear_loop : ℕ → ℕ → List ℕ
gear_loop zero state = []
gear_loop (suc count) state =
    let next = (state * 6364136223846793005 + 1442695040888963407) % 2 ^ 64 in
    next ∷ gear_loop count next

unfoldable pub gear_table : List ℕ
unfolding gear_loop
gear_table = gear_loop 256 1311768467463790320

-- `avgBits`: how often the average size can be halved. `n` turns are enough.
unfoldable pub count_bits : ℕ → ℕ → ℕ
count_bits zero n = 0
count_bits (suc fuel) n = let more = suc (count_bits fuel (n / 2)) in if ltb 1 n then more else 0

-- `(1 << bits) - 1` in 64 bits.
unfoldable pub mask_of : ℕ → ℕ
mask_of bits = ((if ltb bits 64 then 2 ^ bits else 0) + (2 ^ 64 - 1)) % 2 ^ 64

unfoldable pub compute_masks : ChunkConfig → List ℕ
unfolding count_bits mask_of
compute_masks cfg =
    let avg_bits = count_bits cfg.avg_size cfg.avg_size in
    mask_of ((avg_bits + 1) % 2 ^ 64)
    ∷ mask_of ((avg_bits + (2 ^ 64 - 1)) % 2 ^ 64)
    ∷ mask_of ((avg_bits + (2 ^ 64 - 3)) % 2 ^ 64)
    ∷ []

unfoldable pub roll : ℕ → ℕ → ℕ
unfolding gear_table
roll rolling_hash b = (rolling_hash * 2 % 2 ^ 64 + get_or gear_table b 0) % 2 ^ 64

-- The rolling hash of the window before the first position.
unfoldable pub roll_window : ℕ → Bytes → ℕ
unfolding roll
roll_window rolling_hash [] = rolling_hash
roll_window rolling_hash (b ∷ window) = roll_window (roll rolling_hash b) window

-- Is `rollingHash & mask` zero for one of the masks?
unfoldable pub any_mask : ℕ → List ℕ → Bool
any_mask rolling_hash [] = false
any_mask rolling_hash (mask ∷ masks) = bit_and rolling_hash mask == 0 || any_mask rolling_hash masks

-- The loop over the positions below `max_end`; `rest` is the data from `pos` on.
unfoldable pub find_loop : List ℕ → ℕ → ℕ → ℕ → Bytes → ℕ
unfolding any_mask roll
find_loop masks max_end rolling_hash pos [] = max_end
find_loop masks max_end rolling_hash pos (b ∷ rest) =
    let next = find_loop masks max_end (roll rolling_hash b) (pos + 1) rest in
    if ltb pos max_end
    then if any_mask (roll rolling_hash b) masks then pos + 1 else next
    else max_end

unfoldable pub window_start : ℕ → ℕ → ℕ
window_start offset min_end =
    let start = (min_end + (2 ^ 64 - 64)) % 2 ^ 64 in if ltb start offset then offset else start

unfoldable pub find_chunk_boundary : ChunkConfig → Bytes → ℕ → ℕ
unfolding find_loop roll_window compute_masks window_start
find_chunk_boundary cfg data_bytes offset =
    let data_len = length data_bytes in
    let min_end = (offset + cfg.min_size) % 2 ^ 64 in
    let max_end = (offset + cfg.max_size) % 2 ^ 64 in
    let capped = if ltb data_len max_end then data_len else max_end in
    let start = window_start offset min_end in
    let rolling_hash = roll_window 0 (take (min_end - start) (drop start data_bytes)) in
    if leb data_len min_end
    then data_len
    else find_loop (compute_masks cfg) capped rolling_hash min_end (drop min_end data_bytes)

module _ (compute : Bytes → Hash) where
  unfoldable pub chunk_at : ℕ → Bytes → Chunk
  chunk_at offset chunk_data = record {
    offset = offset;
    size = length chunk_data % 2 ^ 32;
    hash = compute chunk_data;
    contents = chunk_data;
  }

  -- The loop of `Split`. Each turn takes a byte at least when chunks may have one, so it makes
  -- at most as many turns as there are bytes; `out_of_fuel` stands for a loop that runs on.
  unfoldable pub split_loop : ChunkConfig → Bytes → ℕ → ℕ → Result Error (List Chunk)
  unfolding chunk_at find_chunk_boundary slice
  split_loop cfg data_bytes zero offset =
      if ltb offset (length data_bytes) then err out_of_fuel else ok []
  split_loop cfg data_bytes (suc fuel) offset =
      let end = find_chunk_boundary cfg data_bytes offset in
      let rest = split_loop cfg data_bytes fuel end in
      let whole = do
        chunk_data ← slice data_bytes offset end
        chunks ← rest
        ok (chunk_at offset chunk_data ∷ chunks)
      in if ltb offset (length data_bytes) then whole else ok []

  unfoldable pub split : ChunkConfig → Bytes → Result Error (List Chunk)
  unfolding split_loop
  split cfg data_bytes = split_loop cfg data_bytes (length data_bytes) 0
