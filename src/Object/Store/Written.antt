-- ===== src/Object/Store/Written.antt =====
-- What `Write` does to the store, case by case.
use minus_sync.Prelude.{
  ℕ, zero, suc, none, some, [], ◌∷◌, ◌⊎◌, ◌≢◌, refl, subst, codes, Lacks, ◌++◌, Bytes, length, take,
  drop, Result, ok, err, Option-cases, inl, inr, ◌≡◌, sym, ap, ◌∙◌, arith, length-take, take-append,
  drop-append,
}
use minus_sync.Hash.{
  Hash, IsHash, hex, encode_hex, hex_digit, dir_prefix, prefix, rest, object_name_injective,
  length-hex,
}
use minus_sync.Object.{Error}
use minus_sync.Object.Header.{Lacks-append}
use minus_sync.Object.Store.{
  object_path, temp_path, Store, rename_to, Leftover, leave, Outcome, done, mkdir_fails,
  create_fails, write_fails, close_fails, rename_exists, rename_fails, write_new, write,
}

pub length-dir_prefix : (h : Hash) → IsHash h → length (dir_prefix h) ≡ 2
unfolding dir_prefix prefix
length-dir_prefix h (size, bytes) = ground (arith, length-hex h, length-take 2 (hex h))

pub cut_front : (xs ys : Bytes) (n c : ℕ) → length xs ≡ n → take n (xs ++ c ∷ ys) ≡ xs
cut_front xs ys n c e = ap (λ k. take k (xs ++ c ∷ ys)) (sym e) ∙ take-append xs (c ∷ ys)

pub cut_back : (xs ys : Bytes) (n c : ℕ) → length xs ≡ n → drop n (xs ++ c ∷ ys) ≡ c ∷ ys
cut_back xs ys n c e = ap (λ k. drop k (xs ++ c ∷ ys)) (sym e) ∙ drop-append xs (c ∷ ys)

-- Different hashes have different paths.
pub object_path_injective :
    (h k : Hash) → IsHash h → IsHash k → object_path h ≡ object_path k → h ≡ k
unfolding object_path
object_path_injective h k hh hk e =
    let front = length-dir_prefix h hh in
    let front' = length-dir_prefix k hk in
    object_name_injective h k hh hk
      (sym (cut_front (dir_prefix h) (rest h) 2 47 front)
        ∙ (ap (take 2) e ∙ cut_front (dir_prefix k) (rest k) 2 47 front'))
      (ap (drop 1) (
        sym (cut_back (dir_prefix h) (rest h) 2 47 front)
        ∙ (ap (drop 2) e ∙ cut_back (dir_prefix k) (rest k) 2 47 front')))

abbrev pub IsTemp : Bytes → Type 0
IsTemp path = (h : Hash) × (suffix : Bytes) × (path ≡ temp_path h suffix)

Lacks-hex : (h : Hash) → Lacks 46 (hex h)
unfolding hex encode_hex hex_digit
Lacks-hex [] = tt
Lacks-hex (b ∷ h) = ((λ e. ground arith), ((λ e. ground arith), Lacks-hex h))

Lacks-take : (n : ℕ) (xs : Bytes) → Lacks 46 xs → Lacks 46 (take n xs)
Lacks-take zero xs lacks = tt
Lacks-take (suc n) [] lacks = tt
Lacks-take (suc n) (x ∷ xs) (other, lacks) = (other, Lacks-take n xs lacks)

Lacks-drop : (n : ℕ) (xs : Bytes) → Lacks 46 xs → Lacks 46 (drop n xs)
Lacks-drop zero xs lacks = lacks
Lacks-drop (suc n) [] lacks = tt
Lacks-drop (suc n) (x ∷ xs) (other, lacks) = Lacks-drop n xs lacks

Lacks-object_path : (h : Hash) → Lacks 46 (object_path h)
unfolding object_path dir_prefix rest prefix
Lacks-object_path h =
    Lacks-append 46 (dir_prefix h) (47 ∷ rest h) (Lacks-take _ (hex h) (Lacks-hex h))
      ((λ e. omega arith), Lacks-drop 2 (hex h) (Lacks-hex h))

has_dot : (xs ys : Bytes) → Lacks 46 (xs ++ 47 ∷ 46 ∷ ys) → ⊥
has_dot [] ys (slash, (dot, lacks)) = dot refl
has_dot (x ∷ xs) ys (other, lacks) = has_dot xs ys lacks

-- The name of a temporary file has a dot, the path of an object has none.
pub object_path-ne-temp_path : (h k : Hash) (suffix : Bytes) → object_path h ≢ temp_path k suffix
unfolding temp_path
object_path-ne-temp_path h k suffix e =
    has_dot (dir_prefix k) (codes "tmp-obj-" ++ suffix) (subst (Lacks 46) e (Lacks-object_path h))

-- Every file of the store stands at the path of the hash of its contents, or is a temporary file.
pub record IsValid (compute : Bytes → Hash) (store : Store) : Type 0 where
  pub at :
      (path data_bytes : Bytes)
      → store path ≡ some data_bytes
      → (path ≡ object_path (compute data_bytes)) ⊎ IsTemp path

-- A file at the path of an object is that object.
pub IsValid-object_path :
    (compute : Bytes → Hash) (store : Store) (h : Hash) (d : Bytes)
    → IsValid compute store
    → store (object_path h) ≡ some d
    → object_path h ≡ object_path (compute d)
IsValid-object_path compute store h d valid there = elim (valid.at (object_path h) d there) [
  | inl named ↦ named
  | inr (k, suffix, e) ↦ absurd (object_path-ne-temp_path h k suffix e)
]

-- What `Write` did: the object was there, it is there now, or the store is as it was but for a
-- temporary file.
pub data Written (compute : Bytes → Hash) (data_bytes : Bytes) (store : Store)
    : Outcome → Result Error Hash × Store → Type 0 where
  present :
      {outcome : Outcome} {old : Bytes}
      → store (object_path (compute data_bytes)) ≡ some old
      → Written compute data_bytes store outcome (ok (compute data_bytes), store)
  stored :
      store (object_path (compute data_bytes)) ≡ none
      → Written compute data_bytes store done
          (ok (compute data_bytes), rename_to (object_path (compute data_bytes)) data_bytes store)
  raced :
      (left : Leftover)
      → Written compute data_bytes store
          (rename_exists left)
          (ok (compute data_bytes), leave left (compute data_bytes) store)
  refused :
      {outcome : Outcome} {e : Error} (left : Leftover)
      → Written compute data_bytes store outcome (err e, leave left (compute data_bytes) store)

Written-write_new :
    (compute : Bytes → Hash) (data_bytes : Bytes) (store : Store) (outcome : Outcome)
    → store (object_path (compute data_bytes)) ≡ none
    → Written compute data_bytes store outcome
        (write_new outcome (compute data_bytes) data_bytes store)
unfolding write_new leave
Written-write_new compute d store done e = stored e
Written-write_new compute d store mkdir_fails e = refused none
Written-write_new compute d store create_fails e = refused none
Written-write_new compute d store (write_fails left) e = refused left
Written-write_new compute d store (close_fails left) e = refused left
Written-write_new compute d store (rename_exists left) e = raced left
Written-write_new compute d store (rename_fails left) e = refused left

pub Written-write :
    (compute : Bytes → Hash) (data_bytes : Bytes) (store : Store) (outcome : Outcome)
    → Written compute data_bytes store outcome (write compute outcome data_bytes store)
unfolding write
Written-write compute d store outcome = elim (Option-cases (store (object_path (compute d)))) [
  | inl absent ↦ rw absent (Written-write_new compute d store outcome absent)
  | inr (old, there) ↦ rw there (present there)
]
