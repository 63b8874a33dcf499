-- ===== src/Chunking/Plan.antt =====
-- internal/delta/fastcdc.go: `BuildSyncPlan`. The map from hexadecimal hashes is a list of them.
use minus_sync.Prelude.{
  ℕ, ◌+◌, Bool, true, false, ◌||◌, List, [], ◌∷◌, ◌++◌, append-nil, append_assoc, Bytes, length,
  All, if◌then◌else◌, bytes_equal, bytes_equal_iff, Bool-cases, inl, inr, ◌≡◌, refl, sym, ap, ◌∙◌,
  arith,
}
use minus_sync.Hash.{Hash, IsHash, hex, hex_injective}
use minus_sync.Chunking.{Chunk}

pub record SyncPlan : Type 0 where
  pub missing_chunks : List Chunk
  pub total_chunks : ℕ
  pub reused_chunks : ℕ

unfoldable pub remote_set : List Hash → List Bytes
remote_set [] = []
remote_set (h ∷ hashes) = hex h ∷ remote_set hashes

unfoldable pub is_member : List Bytes → Bytes → Bool
is_member [] key = false
is_member (k ∷ keys) key = bytes_equal k key || is_member keys key

-- One local chunk: reused, or appended to the missing ones.
unfoldable pub plan_chunk : List Bytes → SyncPlan → Chunk → SyncPlan
plan_chunk remote plan chunk =
    if is_member remote (hex chunk.hash)
    then record plan { reused_chunks = plan.reused_chunks + 1 }
    else record plan { missing_chunks = plan.missing_chunks ++ chunk ∷ [] }

-- The loop over the local chunks, on the plan so far.
unfoldable pub plan_loop : List Bytes → SyncPlan → List Chunk → SyncPlan
plan_loop remote plan [] = plan
plan_loop remote plan (chunk ∷ chunks) = plan_loop remote (plan_chunk remote plan chunk) chunks

unfoldable pub build_sync_plan : List Chunk → List Hash → SyncPlan
unfolding plan_loop remote_set
build_sync_plan local_chunks remote_hashes =
    plan_loop (remote_set remote_hashes)
      (record { missing_chunks = []; total_chunks = length local_chunks; reused_chunks = 0 })
      local_chunks

-- The specification: the chunks whose hash the remote does not have, in order.
has_hash : List Hash → Hash → Bool
has_hash [] h = false
has_hash (k ∷ hashes) h = bytes_equal k h || has_hash hashes h

pub missing : List Hash → List Chunk → List Chunk
missing remote [] = []
missing remote (c ∷ chunks) =
    let later = missing remote chunks in if has_hash remote c.hash then later else c ∷ later

abbrev pub AreHashes : List Hash → Type 0
AreHashes = All IsHash

-- Hexadecimal texts are equal when the hashes are.
hex_equal : (h k : Hash) → IsHash h → IsHash k → bytes_equal (hex h) (hex k) ≡ bytes_equal h k
hex_equal h k hh hk = elim (Bool-cases (bytes_equal h k)) [
  | inl same ↦
      (bytes_equal_iff (hex h) (hex k)).1 (ap hex ((bytes_equal_iff h k).0 same)) ∙ sym same
  | inr other ↦ elim (Bool-cases (bytes_equal (hex h) (hex k))) [
    | inr differ ↦ differ ∙ sym other
    | inl texts ↦
        texts
        ∙ sym (
            (bytes_equal_iff h k).1
              (hex_injective h k hh hk ((bytes_equal_iff (hex h) (hex k)).0 texts)))
  ]
]

is_member-has_hash :
    (remote : List Hash) (h : Hash)
    → AreHashes remote
    → IsHash h
    → is_member (remote_set remote) (hex h) ≡ has_hash remote h
unfolding is_member remote_set has_hash
is_member-has_hash [] h are hh = refl
is_member-has_hash (k ∷ remote) h (hk, are) hh =
    rw (hex_equal k h hk hh, is_member-has_hash remote h are hh) refl

plan_chunk-reused :
    (remote : List Hash) (plan : SyncPlan) (c : Chunk)
    → is_member (remote_set remote) (hex c.hash) ≡ true
    → plan_chunk (remote_set remote) plan c ≡ record plan { reused_chunks = plan.reused_chunks + 1 }
unfolding plan_chunk
plan_chunk-reused remote plan c h = rw h refl

plan_chunk-sent :
    (remote : List Hash) (plan : SyncPlan) (c : Chunk)
    → is_member (remote_set remote) (hex c.hash) ≡ false
    → plan_chunk (remote_set remote) plan c
      ≡ record plan { missing_chunks = plan.missing_chunks ++ c ∷ [] }
unfolding plan_chunk
plan_chunk-sent remote plan c h = rw h refl

-- What a plan has become after the loop over the chunks.
abbrev Planned : List Hash → SyncPlan → List Chunk → SyncPlan → Type 0
Planned remote plan chunks after =
    (after.missing_chunks ≡ plan.missing_chunks ++ missing remote chunks)
    × (after.total_chunks ≡ plan.total_chunks)
    × (after.reused_chunks + length (missing remote chunks) ≡ plan.reused_chunks + length chunks)

plan_loop-nil : (remote : List Bytes) (plan : SyncPlan) → plan_loop remote plan [] ≡ plan
unfolding plan_loop
plan_loop-nil remote plan = refl

plan_loop-cons :
    (remote : List Bytes) (plan : SyncPlan) (c : Chunk) (chunks : List Chunk)
    → plan_loop remote plan (c ∷ chunks) ≡ plan_loop remote (plan_chunk remote plan c) chunks
unfolding plan_loop
plan_loop-cons remote plan c chunks = refl

plan_loop-Planned :
    (remote : List Hash) (plan : SyncPlan) (chunks : List Chunk)
    → AreHashes remote
    → All (λ (c : Chunk). IsHash c.hash) chunks
    → Planned remote plan chunks (plan_loop (remote_set remote) plan chunks)
unfolding missing
plan_loop-Planned remote plan [] are hashes =
    rw plan_loop-nil (sym (append-nil plan.missing_chunks), refl, refl)
plan_loop-Planned remote plan (c ∷ chunks) are (hc, hashes) =
    let member = is_member-has_hash remote c.hash are hc in
    elim (Bool-cases (has_hash remote c.hash)) [
      | inl had ↦
          let (a, b, n) =
            plan_loop-Planned remote (record plan { reused_chunks = plan.reused_chunks + 1 }) chunks
              are hashes in
          rw (plan_loop-cons, plan_chunk-reused remote plan c (member ∙ had), had)
            (a, b, omega arith)
      | inr lacked ↦
          let (a, b, n) =
            plan_loop-Planned remote
              (record plan { missing_chunks = plan.missing_chunks ++ c ∷ [] }) chunks are hashes in
          rw (plan_loop-cons, plan_chunk-sent remote plan c (member ∙ lacked), lacked)
            (a ∙ append_assoc plan.missing_chunks (c ∷ []) (missing remote chunks), b, omega arith)
    ]

-- `BuildSyncPlan` sends the chunks whose hash the remote does not have, in order, counts all
-- chunks, and the reused ones are those that are not sent.
pub build_sync_plan-missing :
    (chunks : List Chunk) (remote : List Hash)
    → AreHashes remote
    → All (λ (c : Chunk). IsHash c.hash) chunks
    → ((build_sync_plan chunks remote).missing_chunks ≡ missing remote chunks)
      × ((build_sync_plan chunks remote).total_chunks ≡ length chunks)
      × ((build_sync_plan chunks remote).reused_chunks + length (missing remote chunks)
          ≡ length chunks)
unfolding build_sync_plan
build_sync_plan-missing chunks remote are hashes =
    let (sent, total, reused) =
      plan_loop-Planned remote
        (record { missing_chunks = []; total_chunks = length chunks; reused_chunks = 0 }) chunks are
        hashes in
    (sent, total, omega arith)
