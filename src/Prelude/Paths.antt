-- ===== src/Prelude/Paths.antt =====
-- `filepath.Join` and `filepath.Clean`, where a slash separates the elements. A path is what is left
-- behind the cleaning.
use mathlib.Core.Path.{◌≡◌, refl, sym, ap, ap₂, ◌∙◌}
use mathlib.Core.Logic.{inl, inr, ◌↔◌}
use mathlib.Core.Bool.{Bool, true, false, ◌&&◌, ◌||◌}
use mathlib.Core.List.{List, [], ◌∷◌, ◌++◌, append-nil, append_assoc}
use Prim.Native.Nat.{ℕ}
use native.Mathlib.Omega.{arith}
use minus_sync.Prelude.Tests.{◌==◌, if◌then◌else◌, Bool-cases}
use minus_sync.Prelude.Lists.{Bytes, All}
use minus_sync.Prelude.Strings.{bytes_equal, bytes_equal_iff, codes}

pub record FilePath : Type 0 where
  pub rooted : Bool
  pub elements : List Bytes

abbrev pub put_element : ℕ → List Bytes → List Bytes
put_element c [] = []
put_element c (e ∷ elements) = if c == 47 then [] ∷ e ∷ elements else (c ∷ e) ∷ elements

unfoldable pub split_slashes : Bytes → List Bytes
split_slashes [] = [] ∷ []
split_slashes (c ∷ text) = put_element c (split_slashes text)

-- `..` takes the last element away, if there is one that is not `..` itself.
unfoldable pub backtrack : Bool → List Bytes → List Bytes
backtrack rooted [] = if rooted then [] else codes ".." ∷ []
backtrack rooted (e ∷ []) = if bytes_equal e (codes "..") then e ∷ codes ".." ∷ [] else []
backtrack rooted (e ∷ next ∷ elements) = e ∷ backtrack rooted (next ∷ elements)

unfoldable pub clean_element : Bool → List Bytes → Bytes → List Bytes
unfolding backtrack
clean_element rooted done e =
    if bytes_equal e [] || bytes_equal e (codes ".")
    then done
    else if bytes_equal e (codes "..")
    then backtrack rooted done
    else done ++ e ∷ []

unfoldable pub clean_loop : Bool → List Bytes → List Bytes → List Bytes
unfolding clean_element
clean_loop rooted done [] = done
clean_loop rooted done (e ∷ elements) = clean_loop rooted (clean_element rooted done e) elements

-- The first part that is not empty begins with a slash.
unfoldable pub is_rooted : List Bytes → Bool
is_rooted [] = false
is_rooted ([] ∷ parts) = is_rooted parts
is_rooted ((c ∷ part) ∷ parts) = c == 47

unfoldable pub split_parts : List Bytes → List Bytes
unfolding split_slashes
split_parts [] = []
split_parts (part ∷ parts) = split_slashes part ++ split_parts parts

unfoldable pub join_path : List Bytes → FilePath
unfolding clean_loop is_rooted split_parts
join_path parts = record {
  rooted = is_rooted parts;
  elements = clean_loop (is_rooted parts) [] (split_parts parts);
}

unfoldable pub elements_equal : List Bytes → List Bytes → Bool
elements_equal [] [] = true
elements_equal [] (f ∷ fs) = false
elements_equal (e ∷ es) [] = false
elements_equal (e ∷ es) (f ∷ fs) = bytes_equal e f && elements_equal es fs

unfoldable pub path_equal : FilePath → FilePath → Bool
unfolding elements_equal
path_equal p q =
    (if p.rooted then q.rooted else (if q.rooted then false else true))
    && elements_equal p.elements q.elements

-- An element that cleaning keeps.
abbrev pub IsClean : Bytes → Type 0
IsClean e =
    ((bytes_equal e [] || bytes_equal e (codes ".")) ≡ false) × (bytes_equal e (codes "..") ≡ false)

-- A name that cleaning leaves as it is: none of its elements is empty, `.` or `..`.
abbrev pub IsCleanName : Bytes → Type 0
IsCleanName name = All IsClean (split_slashes name)

clean_loop-append :
    (rooted : Bool) (done es fs : List Bytes)
    → clean_loop rooted done (es ++ fs) ≡ clean_loop rooted (clean_loop rooted done es) fs
unfolding clean_loop
clean_loop-append rooted done [] fs = refl
clean_loop-append rooted done (e ∷ es) fs =
    clean_loop-append rooted (clean_element rooted done e) es fs

clean_loop-IsClean :
    (rooted : Bool) (done es : List Bytes) → All IsClean es → clean_loop rooted done es ≡ done ++ es
unfolding clean_loop clean_element
clean_loop-IsClean rooted done [] clean = sym (append-nil done)
clean_loop-IsClean rooted done (e ∷ es) ((kept, forward), clean) =
    rw (kept, forward)
      (clean_loop-IsClean rooted (done ++ e ∷ []) es clean ∙ append_assoc done (e ∷ []) es)

-- Behind a first part, clean elements follow what that part gives.
pub join_path-clean :
    (first : Bytes) (parts : List Bytes)
    → All IsClean (split_parts parts)
    → is_rooted (first ∷ parts) ≡ is_rooted (first ∷ [])
    → join_path (first ∷ parts) ≡ record {
      rooted = is_rooted (first ∷ []);
      elements = clean_loop (is_rooted (first ∷ [])) [] (split_slashes first) ++ split_parts parts;
    }
unfolding join_path
join_path-clean first parts clean e =
    let rooted = is_rooted (first ∷ []) in
    rw e (
      ap (λ (es : List Bytes). record { rooted = rooted; elements = es })
        (clean_loop-append rooted [] (split_slashes first) (split_parts parts)
          ∙ clean_loop-IsClean rooted (clean_loop rooted [] (split_slashes first))
              (split_parts parts) clean))

pub elements_equal-append :
    (es fs gs : List Bytes) → elements_equal (es ++ fs) (es ++ gs) ≡ elements_equal fs gs
unfolding elements_equal
elements_equal-append [] fs gs = refl
elements_equal-append (e ∷ es) fs gs =
    rw ((bytes_equal_iff e e).1 refl) (elements_equal-append es fs gs)

split_slashes-cons :
    (text : Bytes) → (e : Bytes) × (es : List Bytes) × (split_slashes text ≡ e ∷ es)
unfolding split_slashes
split_slashes-cons [] = ([], [], refl)
split_slashes-cons (c ∷ text) =
    let (e, es, h) = split_slashes-cons text in
    elim (Bool-cases (c == 47)) [
      | inl slash ↦ ([], e ∷ es, rw (h, slash) refl)
      | inr other ↦ (c ∷ e, es, rw (h, other) refl)
    ]

nil-put_element :
    (d : ℕ) (f : Bytes) (fs : List Bytes)
    → elements_equal ([] ∷ []) (put_element d (f ∷ fs)) ≡ false
unfolding elements_equal bytes_equal
nil-put_element d f fs = ground arith

put_element-nil :
    (c : ℕ) (e : Bytes) (es : List Bytes)
    → elements_equal (put_element c (e ∷ es)) ([] ∷ []) ≡ false
unfolding elements_equal bytes_equal
put_element-nil c e es = ground arith

put_element-both :
    (c d : ℕ) (e f : Bytes) (es fs : List Bytes)
    → elements_equal (put_element c (e ∷ es)) (put_element d (f ∷ fs))
      ≡ ((c == d) && elements_equal (e ∷ es) (f ∷ fs))
unfolding elements_equal bytes_equal
put_element-both c d e f es fs = ground arith

-- Names are the same when their elements are.
pub elements_equal-split_slashes :
    (s t : Bytes) → elements_equal (split_slashes s) (split_slashes t) ≡ bytes_equal s t
unfolding split_slashes bytes_equal
elements_equal-split_slashes [] [] = unfold elements_equal in refl
elements_equal-split_slashes [] (d ∷ t) =
    let (f, fs, h) = split_slashes-cons t in rw h (nil-put_element d f fs)
elements_equal-split_slashes (c ∷ s) [] =
    let (e, es, h) = split_slashes-cons s in rw h (put_element-nil c e es)
elements_equal-split_slashes (c ∷ s) (d ∷ t) =
    let (e, es, h) = split_slashes-cons s in
    let (f, fs, k) = split_slashes-cons t in
    let rest = elements_equal-split_slashes s t in
    rw (h, k) (put_element-both c d e f es fs ∙ ap (λ b. (c == d) && b) (rw (h, k) at rest))

elements_equal_iff : (es fs : List Bytes) → (elements_equal es fs ≡ true) ↔ (es ≡ fs)
unfolding elements_equal
elements_equal_iff [] [] = ground arith
elements_equal_iff [] (f ∷ fs) = ground arith
elements_equal_iff (e ∷ es) [] = ground arith
elements_equal_iff (e ∷ es) (f ∷ fs) = ground (arith, elements_equal_iff es fs, bytes_equal_iff e f)

pub path_equal-same : (p : FilePath) → path_equal p p ≡ true
unfolding path_equal
path_equal-same p = ground (arith, (elements_equal_iff p.elements p.elements).1 refl)

pub path_equal-path : (p q : FilePath) → path_equal p q ≡ true → p ≡ q
unfolding path_equal
path_equal-path p q e =
    let roots : p.rooted ≡ q.rooted = ground arith in
    let same : elements_equal p.elements q.elements ≡ true = ground arith in
    ap₂ (λ (r : Bool) (es : List Bytes). record { rooted = r; elements = es }) roots
      ((elements_equal_iff p.elements q.elements).0 same)
