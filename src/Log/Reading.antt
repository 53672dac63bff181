-- ===== src/Log/Reading.antt =====
-- A reader of metrics.log, which takes the lines of Metrics::emit (src/metrics.cpp) apart again.
use mathlib.Core.Path.{ap₂}
use x_pilot.Base.{
  ℕ, ◌≡◌, refl, ap, sym, ◌∙◌, Bool-cases, inl, inr, true, false, List, [], ◌∷◌, ◌++◌, append_assoc,
  append-nil, map, ◌==◌, if◌then◌else◌, All, arith,
}
use x_pilot.Base.Word.{Bytes}
use x_pilot.Log.{Pair, less, insert, make_map, show_fields, metrics_line}
use x_pilot.Log.Fields.{IsSorted, find, make_map_lem}

-- Up to the first such byte, and what stands behind it.
abbrev read_until : ℕ → Bytes → Bytes × Bytes
read_until b [] = ([], [])
read_until b (c ∷ cs) =
    let rest = read_until b cs in if c == b then ([], cs) else (c ∷ rest.0, rest.1)

abbrev push : ℕ → List Bytes → List Bytes
push c [] = (c ∷ []) ∷ []
push c (w ∷ ws) = (c ∷ w) ∷ ws

-- What stands between the spaces.
abbrev words : Bytes → List Bytes
words [] = [] ∷ []
words (c ∷ cs) = let rest = words cs in if c == 32 then [] ∷ rest else push c rest

-- key=value
abbrev read_field : Bytes → Pair
read_field w = let (key, text) = read_until 61 w in record { key = key; text = text }

abbrev behind_first : List Bytes → List Bytes
behind_first [] = []
behind_first (w ∷ ws) = ws

-- The text in brackets, and the fields behind it; the name of the event is the first of them.
unfoldable pub read_line : Bytes → Bytes × List Pair
read_line [] = ([], [])
read_line (c ∷ cs) =
    let (time, rest) = read_until 93 cs in (time, map read_field (behind_first (words rest)))

abbrev pub Without : ℕ → Bytes → Type 0
Without b xs = All (λ x. (x == b) ≡ false) xs

-- A key has no space and no '=' in it, a value no space.
abbrev pub IsPlain : Pair → Type 0
IsPlain p = Without 32 p.key × Without 61 p.key × Without 32 p.text

same_byte : (b : ℕ) → (b == b) ≡ true
same_byte b = ground arith

read_until_lem : (b : ℕ) (xs ys : Bytes) → Without b xs → read_until b (xs ++ (b ∷ ys)) ≡ (xs, ys)
read_until_lem b [] ys h = rw (same_byte b) refl
read_until_lem b (x ∷ xs) ys (h, hs) = rw (h, read_until_lem b xs ys hs) refl

words_plain : (w : Bytes) → Without 32 w → words w ≡ w ∷ []
words_plain [] h = refl
words_plain (c ∷ cs) (h, hs) = rw (h, words_plain cs hs) refl

words-front : (w ys : Bytes) → Without 32 w → words (w ++ (32 ∷ ys)) ≡ w ∷ words ys
words-front [] ys h = refl
words-front (c ∷ cs) ys (h, hs) = rw (h, words-front cs ys hs) refl

abbrev word_of : Pair → Bytes
word_of p = p.key ++ (61 ∷ p.text)

Without-append : (b : ℕ) (xs ys : Bytes) → Without b xs → Without b ys → Without b (xs ++ ys)
Without-append b [] ys h k = k
Without-append b (x ∷ xs) ys (h, hs) k = (h, Without-append b xs ys hs k)

Without-word_of : (p : Pair) → IsPlain p → Without 32 (word_of p)
Without-word_of p (k, e, t) = Without-append 32 p.key (61 ∷ p.text) k (refl, t)

words-fields :
    (ps : List Pair) (w : Bytes)
    → Without 32 w
    → All IsPlain ps
    → words (w ++ show_fields ps) ≡ w ∷ map word_of ps
unfolding show_fields
words-fields [] w h all = ap words (append-nil w) ∙ words_plain w h
words-fields (p ∷ ps) w h (plain, all) =
    words-front w (p.key ++ (61 ∷ (p.text ++ show_fields ps))) h
    ∙ ap (λ z. w ∷ words z) (sym (append_assoc p.key (61 ∷ p.text) (show_fields ps)))
    ∙ ap (◌∷◌ w) (words-fields ps (word_of p) (Without-word_of p plain) all)

read_field_lem : (p : Pair) → IsPlain p → read_field (word_of p) ≡ p
read_field_lem p (k, e, t) = rw (read_until_lem 61 p.key p.text e) refl

read_fields : (ps : List Pair) → All IsPlain ps → map read_field (map word_of ps) ≡ ps
read_fields [] h = refl
read_fields (p ∷ ps) (h, hs) = ap₂ ◌∷◌ (read_field_lem p h) (read_fields ps hs)

insert-IsPlain : (p : Pair) (m : List Pair) → IsPlain p → All IsPlain m → All IsPlain (insert p m)
unfolding insert
insert-IsPlain p [] h all = (h, tt)
insert-IsPlain p (q ∷ qs) h (first, all) =
    let rest = insert-IsPlain p qs h all in
    elim (Bool-cases (less p.key q.key)) [
      | inl e ↦ rw e (h, (first, all))
      | inr e ↦ elim (Bool-cases (less q.key p.key)) [
        | inl d ↦ rw (e, d) (first, rest)
        | inr d ↦ rw (e, d) (first, all)
      ]
    ]

make_map-IsPlain : (ps m : List Pair) → All IsPlain ps → All IsPlain m → All IsPlain (make_map m ps)
unfolding make_map
make_map-IsPlain [] m h all = all
make_map-IsPlain (p ∷ ps) m (h, hs) all =
    make_map-IsPlain ps (insert p m) hs (insert-IsPlain p m h all)

-- "event"
abbrev pub event_key : Bytes
event_key = 101 ∷ 118 ∷ 101 ∷ 110 ∷ 116 ∷ []

abbrev named : Bytes → Pair
named name = record { key = event_key; text = name }

line_lem :
    (time name : Bytes) (ps : List Pair)
    → metrics_line time name ps ≡ 91 ∷ (time ++ (93 ∷ show_fields (named name ∷ make_map [] ps)))
unfolding metrics_line show_fields
line_lem time name ps = ap (◌∷◌ 91) (append_assoc time (93 ∷ []) _)

read_line_lem :
    (time : Bytes) (fs : List Pair)
    → Without 93 time
    → All IsPlain fs
    → read_line (91 ∷ (time ++ (93 ∷ show_fields fs))) ≡ (time, fs)
unfolding read_line
read_line_lem time fs t all =
    ap (λ r. (r.0, map read_field (behind_first (words r.1))))
      (read_until_lem 93 time (show_fields fs) t)
    ∙ ap (λ ws. (time, map read_field (behind_first ws))) (words-fields fs [] tt all)
    ∙ ap (λ gs. (time, gs)) (read_fields fs all)

-- Nothing of an event is lost: where the time has no ']' in it, the name of the event no space, and the
-- fields no space and their keys no '=', the line of the event can be read again, and gives the time, the name and
-- every field with its value. The fields stand in the order of their keys, and a key that the caller writes
-- twice keeps the first value.
pub metrics_line_read :
    (time name : Bytes) (ps : List Pair)
    → Without 93 time
    → Without 32 name
    → All IsPlain ps
    → (m : List Pair) × (read_line (metrics_line time name ps)
        ≡ (time, record { key = event_key; text = name } ∷ m))
      × IsSorted m
      × ((k : Bytes) → find k m ≡ find k ps)
unfolding read_line
metrics_line_read time name ps t n h =
    let m = make_map [] ps in
    let event : IsPlain (named name) =
      ((refl, (refl, (refl, (refl, (refl, tt))))), (refl, (refl, (refl, (refl, (refl, tt))))), n) in
    let all : All IsPlain (named name ∷ m) = (event, make_map-IsPlain ps [] h tt) in
    (
      m,
      ap read_line (line_lem time name ps) ∙ read_line_lem time (named name ∷ m) t all,
      (make_map_lem [] ps).0,
      λ k. (make_map_lem k ps).1,
    )
