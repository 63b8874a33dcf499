-- ===== src/Object/Pack/Added.antt =====
-- internal/object/pack.go: what the writer of a pack holds after some objects were added.
use minus_sync.Prelude.{
  ℕ, zero, suc, ◌%◌, ◌^◌, ◌≤◌, ◌<◌, Option, some, List, [], ◌∷◌, ◌++◌, Bytes, All, All-append,
  length, length-append, drop, drop-append, append-nil, append_assoc, Result, ok, err, panic,
  or_err, or_err-eq-ok, map_err, Handed-of_ok, ok_injective, Ensures, Ensures-bind, Ensures-ok,
  Ensures-or_err, ◌≡◌, refl, sym, ap, ◌∙◌, subst, arith, split_at_byte, scan_word, scan_uint,
}
use mathlib.Core.List.{Memᴰ}
use minus_sync.Hash.{Hash}
use minus_sync.Object.{ObjectType, type_name_to_type, missing_null, malformed_header, unknown_type}
use minus_sync.Object.{Error as ObjectError}
use minus_sync.Object.Header.{Header, parse_header}
use minus_sync.Object.Pack.{
  PackEntry, PackWriter, header_failed, compress_failed, new_pack_writer, append_object, add_object,
}

-- The fields fit the bytes that the table has for them.
pub record Fits (e : PackEntry) : Type 0 where
  pub hash : length e.hash ≡ 32
  pub object_type : e.object_type < 256
  pub offset : e.offset < 2 ^ 32
  pub compressed_len : e.compressed_len < 2 ^ 32
  pub uncompressed_len : e.uncompressed_len < 2 ^ 32

mem_left : {e : PackEntry} (xs ys : List PackEntry) → Memᴰ e xs → Memᴰ e (xs ++ ys)
mem_left [] ys m = elim m [ ]
mem_left (x ∷ xs) ys (Memᴰ.head same) = Memᴰ.head same
mem_left (x ∷ xs) ys (Memᴰ.tail m) = Memᴰ.tail (mem_left xs ys m)

mem_right :
    {e : PackEntry} (xs : List PackEntry) {ys : List PackEntry} → Memᴰ e ys → Memᴰ e (xs ++ ys)
mem_right [] m = m
mem_right (x ∷ xs) m = Memᴰ.tail (mem_right xs m)

pub drop-append_le : (n : ℕ) (xs ys : Bytes) → n ≤ length xs → drop n (xs ++ ys) ≡ drop n xs ++ ys
drop-append_le zero xs ys h = refl
drop-append_le (suc n) [] ys h = absurd (omega arith)
drop-append_le (suc n) (x ∷ xs) ys h = drop-append_le n xs ys (omega arith)

type_name_to_type-lt : (name : Bytes) (t : ObjectType) → type_name_to_type name ≡ some t → t < 256
unfolding type_name_to_type
type_name_to_type-lt name t e = ground arith

parse_header-lt : (d : Bytes) → Ensures (λ (r : Header × ℕ). r.0.object_type < 256) (parse_header d)
unfolding parse_header
parse_header-lt d =
    Ensures-bind (λ (r : Bytes × Bytes). Unit {0}) (or_err missing_null (split_at_byte 0 d)) _
      (record { at = λ a e. tt })
      (λ first u.
        Ensures-bind (λ (r : Bytes × Bytes). Unit {0}) (or_err malformed_header (scan_word first.0))
          _ (record { at = λ a e. tt })
          (λ word u.
            Ensures-bind (λ (r : ℕ × Bytes). Unit {0})
              (or_err malformed_header (scan_uint 10 (2 ^ 64) word.1)) _ (record { at = λ a e. tt })
              (λ number u.
                Ensures-bind (λ (t : ObjectType). t < 256)
                  (or_err (unknown_type word.0) (type_name_to_type word.0)) _
                  (Ensures-or_err _ _ (λ t e. type_name_to_type-lt word.0 t e))
                  (λ t small. Ensures-ok _ small))))

pub map_err-ok :
    {A : Type 0} (r : Result ObjectError A) {a : A} → map_err header_failed r ≡ ok a → r ≡ ok a
map_err-ok (ok b) e = ap ok (ok_injective e)
map_err-ok (err why) e = absurd (cc)
map_err-ok panic e = absurd (cc)

module _ (compute : Bytes → Hash) (compress decompress : Bytes → Option Bytes) where
  -- The entry of an object: its compressed bytes stand at the offset.
  pub record IsEntry (body d : Bytes) (e : PackEntry) : Type 0 where
    pub named : e.hash ≡ compute d
    pub compressed : Bytes
    pub packed : compress d ≡ some compressed
    pub behind : Bytes
    pub stands : drop e.offset body ≡ compressed ++ behind
    pub inside : e.offset ≤ length body
    pub size : e.compressed_len ≡ length compressed

  abbrev pub HasEntry : PackWriter → Bytes → Type 0
  HasEntry w d = (e : PackEntry) × Memᴰ e w.entries × IsEntry w.body_buf d e

  -- The writer after these objects were added, the last one first.
  pub data Added : List Bytes → PackWriter → Type 0 where
    started : Added [] new_pack_writer
    added :
        {ds : List Bytes} {w next : PackWriter} {h : Hash} (d : Bytes)
        → Added ds w
        → add_object compute compress decompress d w ≡ ok (h, next)
        → Added (d ∷ ds) next

  pub record Packs (ds : List Bytes) (w : PackWriter) : Type 0 where
    pub found : All (HasEntry w) ds
    pub fits : All Fits w.entries
    pub offset : w.offset ≡ length w.body_buf % 2 ^ 32

  pub IsEntry-append :
      (body more d : Bytes) (e : PackEntry) → IsEntry body d e → IsEntry (body ++ more) d e
  IsEntry-append body more d e h = record {
    named = h.named;
    compressed = h.compressed;
    packed = h.packed;
    behind = h.behind ++ more;
    stands =
        drop-append_le e.offset body more h.inside
        ∙ ap (λ xs. xs ++ more) h.stands
        ∙ append_assoc h.compressed h.behind more;
    inside = omega (arith, length-append body more, h.inside);
    size = h.size;
  }

  grown :
      (ds : List Bytes) (w : PackWriter) (h : Hash) (header : Header) (content_len : ℕ)
      (compressed : Bytes)
      → All (HasEntry w) ds
      → All (HasEntry (append_object h header content_len compressed w)) ds
  unfolding append_object
  grown [] w h header content_len compressed a = tt
  grown (d ∷ ds) w h header content_len compressed ((e, m, entry), a) = (
    (e, mem_left w.entries _ m, IsEntry-append w.body_buf compressed d e entry),
    grown ds w h header content_len compressed a,
  )

  -- One object is added, and the body is still below the limit of the offsets.
  Packs-append :
      (ds : List Bytes) (w : PackWriter) (d : Bytes) (header : Header) (content_len : ℕ)
      (compressed : Bytes)
      → length (compute d) ≡ 32
      → header.object_type < 256
      → compress d ≡ some compressed
      → length (w.body_buf ++ compressed) < 2 ^ 32
      → Packs ds w
      → Packs (d ∷ ds) (append_object (compute d) header content_len compressed w)
  unfolding append_object
  Packs-append ds w d header content_len compressed size small packed short p =
      let total = length-append w.body_buf compressed in
      let at_end : w.offset ≡ length w.body_buf = omega (arith, total, p.offset, short) in
      record {
        found = (
          (
            _,
            mem_right w.entries (Memᴰ.head refl),
            record {
              named = refl;
              compressed = compressed;
              packed = packed;
              behind = [];
              stands =
                  ap (λ n. drop n (w.body_buf ++ compressed)) at_end
                  ∙ drop-append w.body_buf compressed
                  ∙ sym (append-nil compressed);
              inside = omega (arith, total, at_end);
              size = omega (arith, total, short);
            },
          ),
          grown ds w (compute d) header content_len compressed p.found,
        );
        fits = All-append Fits w.entries _ p.fits (
          record {
            hash = size;
            object_type = small;
            offset = omega (arith, at_end, total, short);
            compressed_len = omega arith;
            uncompressed_len = omega arith;
          },
          tt,
        );
        offset = omega (arith, total, at_end);
      }

  -- What `AddObject` did when it returned without an error.
  pub record Appended (d : Bytes) (w next : PackWriter) : Type 0 where
    pub header : Header
    pub content_len : ℕ
    pub compressed : Bytes
    pub packed : compress d ≡ some compressed
    pub small : header.object_type < 256
    pub result : append_object (compute d) header content_len compressed w ≡ next

  Appended-add_object :
      (d : Bytes) (w next : PackWriter) (h : Hash)
      → add_object compute compress decompress d w ≡ ok (h, next)
      → Appended d w next
  unfolding add_object
  Appended-add_object d w next h e =
      let first = Handed-of_ok _ (map_err header_failed (parse_header d)) e in
      let second = Handed-of_ok _ (or_err compress_failed (compress d)) first.behind in
      record {
        header = first.value.0;
        content_len = length (drop first.value.1 d);
        compressed = second.value;
        packed = or_err-eq-ok _ _ second.before;
        small = (parse_header-lt d).at first.value (map_err-ok (parse_header d) first.before);
        result = ap (λ (r : Hash × PackWriter). r.1) (ok_injective second.behind);
      }

  pub Packs-Added :
      ((d : Bytes) → length (compute d) ≡ 32)
      → (ds : List Bytes) (w : PackWriter) → Added ds w
      → length w.body_buf < 2 ^ 32
      → Packs ds w
  unfolding new_pack_writer append_object
  Packs-Added hashes ds w started short = record { found = tt; fits = tt; offset = omega arith }
  Packs-Added hashes ds w (added {ds = before} {w = w'} {h = h} d a e) short =
      let step = Appended-add_object d w' w h e in
      subst (λ (x : PackWriter). length x.body_buf < 2 ^ 32 → Packs (d ∷ before) x) step.result
        (λ fits.
          Packs-append before w' d step.header step.content_len step.compressed (hashes d)
            step.small step.packed fits
            (Packs-Added hashes before w' a
              (omega (arith, length-append w'.body_buf step.compressed, fits))))
        short
