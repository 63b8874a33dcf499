-- ===== src/Object/Tree/RoundTrip.antt =====
-- `ParseTree` reads back what `SerializeTree` writes, and ends on all data.
use minus_sync.Prelude.{
  ℕ, zero, suc, ◌+◌, ◌^◌, ◌<◌, ◌≤◌, some, List, [], ◌∷◌, ◌++◌, Bytes, length, if◌then◌else◌, ok,
  ◌==◌, split_at_byte, split_at_byte-append, Lacks, get_bytes, get_bytes-append_of_length,
  format_uint, format_uint-AreDigits, scan_uint, scan_uint-format_uint, sort_by, sort_by-All, All,
  append_assoc, append-nil, length-append, length-get_bytes, Returns, returned, Returns-bind,
  Returns-or_err, Ensures, Ensures-bind, Ensures-ok, Ensures-or_err, Bool-cases, Option-cases,
  some_pair, none-ne-some, inl, inr, ◌≡◌, refl, sym, ap, arith,
}
use minus_sync.Hash.{hash_size}
use minus_sync.Object.{
  type_blob, type_tree, missing_tree_null, malformed_entry, invalid_mode, unexpected_end,
}
use minus_sync.Object.Header.{Lacks-AreDigits, Lacks-append}
use minus_sync.Object.Tree.{
  TreeEntry, entry_name, mode_dir, serialize_entry, serialize_entries, serialize_tree, parse_entry,
  parse_loop, parse_tree,
}

-- An entry that the format can hold: the mode has 32 bits, the name no zero byte, and the type
-- is the one that the mode says.
pub record IsEntry (e : TreeEntry) : Type 0 where
  pub mode : e.mode < 2 ^ 32
  pub name : Lacks 0 e.name
  pub hash : length e.hash ≡ hash_size
  pub entry_type : e.entry_type ≡ (if e.mode == mode_dir then type_tree else type_blob)

mode_text : (mode : ℕ) → mode < 2 ^ 32 → scan_uint 8 (2 ^ 32) (format_uint 8 mode) ≡ some (mode, [])
mode_text mode fits =
    rw append-nil at (scan_uint-format_uint 8 (2 ^ 32) mode [] (omega arith) (omega arith) fits tt)

typed :
    (e : TreeEntry)
    → IsEntry e
    → record {
      mode = e.mode;
      name = e.name;
      hash = e.hash;
      entry_type = if e.mode == mode_dir then type_tree else type_blob;
    }
      ≡ e
typed e is_entry =
    ap (λ t. record { mode = e.mode; name = e.name; hash = e.hash; entry_type = t })
      (sym is_entry.entry_type)

-- An entry is read back, whatever follows it.
parse_entry-serialize_entry :
    (e : TreeEntry) (rest : Bytes)
    → IsEntry e
    → parse_entry (serialize_entry e ++ rest) ≡ ok (e, rest)
unfolding parse_entry serialize_entry
parse_entry-serialize_entry e rest is_entry =
    let digits = format_uint-AreDigits 8 e.mode (omega arith) in
    let text = format_uint 8 e.mode in
    let header =
      Lacks-append 0 text (32 ∷ e.name) (Lacks-AreDigits 8 0 text (omega arith) digits)
        ((λ q. omega arith), is_entry.name) in
    rw
      (
        append_assoc (text ++ 32 ∷ e.name) (0 ∷ e.hash) rest,
        split_at_byte-append 0 (text ++ 32 ∷ e.name) (e.hash ++ rest) header,
        split_at_byte-append 32 text e.name (Lacks-AreDigits 8 32 text (omega arith) digits),
        mode_text e.mode is_entry.mode,
        get_bytes-append_of_length hash_size e.hash rest is_entry.hash,
      )
      (ap (λ x. ok (x, rest)) (typed e is_entry))

length-serialize_entry : (e : TreeEntry) → 1 ≤ length (serialize_entry e)
unfolding serialize_entry
length-serialize_entry e =
    omega (arith, length-append (format_uint 8 e.mode ++ 32 ∷ e.name) (0 ∷ e.hash))

-- One turn of the loop.
parse_loop-entry :
    (fuel : ℕ) (data_bytes rest : Bytes) (e : TreeEntry) (entries : List TreeEntry)
    → 0 < length data_bytes
    → parse_entry data_bytes ≡ ok (e, rest)
    → parse_loop fuel rest ≡ ok entries
    → parse_loop (suc fuel) data_bytes ≡ ok (e ∷ entries)
unfolding parse_loop
parse_loop-entry fuel [] rest e entries more h k = absurd (omega arith)
parse_loop-entry fuel (b ∷ data_bytes) rest e entries more h k = rw (h, k) refl

serialize_entries-nil : serialize_entries [] ≡ []
unfolding serialize_entries
serialize_entries-nil = refl

serialize_entries-cons :
    (e : TreeEntry) (entries : List TreeEntry)
    → serialize_entries (e ∷ entries) ≡ serialize_entry e ++ serialize_entries entries
unfolding serialize_entries
serialize_entries-cons e entries = refl

parse_loop-nil : (fuel : ℕ) → parse_loop fuel [] ≡ ok []
unfolding parse_loop
parse_loop-nil zero = refl
parse_loop-nil (suc fuel) = refl

parse_loop-serialize_entries :
    (fuel : ℕ) (entries : List TreeEntry)
    → All IsEntry entries
    → length (serialize_entries entries) ≤ fuel
    → parse_loop fuel (serialize_entries entries) ≡ ok entries
parse_loop-serialize_entries fuel [] are enough = rw serialize_entries-nil (parse_loop-nil fuel)
parse_loop-serialize_entries zero (e ∷ entries) (is_entry, are) enough = absurd (
    omega (
      arith,
      ap length (serialize_entries-cons e entries),
      length-append (serialize_entry e) (serialize_entries entries),
      length-serialize_entry e,
    ))
parse_loop-serialize_entries (suc fuel) (e ∷ entries) (is_entry, are) enough =
    let whole = length-append (serialize_entry e) (serialize_entries entries) in
    let front = length-serialize_entry e in
    let total = ap length (serialize_entries-cons e entries) in
    rw serialize_entries-cons (
      parse_loop-entry fuel (serialize_entry e ++ serialize_entries entries)
        (serialize_entries entries) e entries (omega arith)
        (parse_entry-serialize_entry e (serialize_entries entries) is_entry)
        (parse_loop-serialize_entries fuel entries are (omega arith)))

-- `ParseTree` of a serialized tree returns its entries, in the order of their names, if every
-- mode has 32 bits, no name holds a zero byte, and every type is the one that its mode says.
pub parse_tree-serialize_tree :
    (entries : List TreeEntry)
    → All IsEntry entries
    → parse_tree (serialize_tree entries) ≡ ok (sort_by entry_name entries)
unfolding parse_tree serialize_tree
parse_tree-serialize_tree entries are =
    parse_loop-serialize_entries (length (serialize_entries (sort_by entry_name entries)))
      (sort_by entry_name entries) (sort_by-All entry_name IsEntry entries are) (omega arith)

length-split_at_byte :
    (c : ℕ) (xs : Bytes) {before after : Bytes}
    → split_at_byte c xs ≡ some (before, after)
    → length after < length xs
unfolding split_at_byte
length-split_at_byte c [] e = cc
length-split_at_byte c (x ∷ xs) {before} {after} e = elim (Bool-cases (x == c)) [
  | inl here ↦ omega (arith, ap length (some_pair (rw here at e)).1)
  | inr further ↦ elim (Option-cases (split_at_byte c xs)) [
    | inl lacking ↦ absurd (none-ne-some (rw (further, lacking) at e))
    | inr ((front, back), found) ↦
        let less = length-split_at_byte c xs found in
        omega (arith, ap length (some_pair (rw (further, found) at e)).1)
  ]
]

-- The data behind an entry is shorter.
parse_entry-shorter :
    (data_bytes : Bytes)
    → Ensures
        (λ ((e, rest) : TreeEntry × Bytes). length rest < length data_bytes)
        (parse_entry data_bytes)
unfolding parse_entry
parse_entry-shorter data_bytes =
    Ensures-bind (λ ((header, after) : Bytes × Bytes). length after < length data_bytes) _ _
      (Ensures-or_err missing_tree_null (split_at_byte 0 data_bytes)
        (λ (header, after) e. length-split_at_byte 0 data_bytes e))
      (λ (header, after) less.
        Ensures-bind (λ (x : Bytes × Bytes). Unit {0}) _ _
          (Ensures-or_err malformed_entry (split_at_byte 32 header) (λ x e. tt))
          (λ (text, name) _.
            Ensures-bind (λ (x : ℕ × Bytes). Unit {0}) _ _
              (Ensures-or_err invalid_mode (scan_uint 8 (2 ^ 32) text) (λ x e. tt))
              (λ (mode, left) _.
                Ensures-bind (λ ((hash, rest) : Bytes × Bytes). length rest + 32 ≡ length after) _ _
                  (Ensures-or_err unexpected_end (get_bytes hash_size after)
                    (λ (hash, rest) e. (length-get_bytes hash_size after e).1))
                  (λ (hash, rest) size.
                    let shorter : length rest < length data_bytes = omega arith in
                    Ensures-ok _ shorter))))

parse_entry-Returns : (data_bytes : Bytes) → Returns (parse_entry data_bytes)
unfolding parse_entry
parse_entry-Returns data_bytes =
    Returns-bind _ (Returns-or_err missing_tree_null (split_at_byte 0 data_bytes))
      (λ (header, after) _.
        Returns-bind _ (Returns-or_err malformed_entry (split_at_byte 32 header)) (λ (text, name) _.
          Returns-bind _ (Returns-or_err invalid_mode (scan_uint 8 (2 ^ 32) text))
            (λ (mode, left) _.
              Returns-bind _ (Returns-or_err unexpected_end (get_bytes hash_size after))
                (λ (hash, rest) _. returned _))))

parse_loop-Returns :
    (fuel : ℕ) (data_bytes : Bytes)
    → length data_bytes ≤ fuel
    → Returns (parse_loop fuel data_bytes)
unfolding parse_loop
parse_loop-Returns zero [] enough = returned []
parse_loop-Returns (suc fuel) [] enough = returned []
parse_loop-Returns zero (b ∷ data_bytes) enough = absurd (omega arith)
parse_loop-Returns (suc fuel) (b ∷ data_bytes) enough =
    Returns-bind _ (parse_entry-Returns (b ∷ data_bytes)) (λ (e, rest) q.
      let less = (parse_entry-shorter (b ∷ data_bytes)).at (e, rest) q in
      Returns-bind _ (parse_loop-Returns fuel rest (omega arith)) (λ entries _. returned _))

-- `ParseTree` ends on all data, with entries or with an error: its loop never runs on, and it
-- reads inside the data.
pub parse_tree-Returns : (data_bytes : Bytes) → Returns (parse_tree data_bytes)
unfolding parse_tree
parse_tree-Returns data_bytes = parse_loop-Returns (length data_bytes) data_bytes (omega arith)
