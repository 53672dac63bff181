-- ===== src/Log/Fields.antt =====
-- The fields of an event against the list that the caller writes.
use mathlib.Core.Path.{subst}
use x_pilot.Base.{
  ◌≡◌, refl, sym, ap, ◌∙◌, inl, inr, Bool, Bool-cases, true, false, ◌&&◌, Option, none, some, List,
  [], ◌∷◌, ◌==◌, if◌then◌else◌, All, arith,
}
use x_pilot.Base.Word.{Bytes}
use x_pilot.Log.{Pair, less, insert, make_map}

-- Each key is less than the next.
abbrev pub IsSorted : List Pair → Type 0
IsSorted [] = Unit
IsSorted (p ∷ ps) = All (λ q. less p.key q.key ≡ true) ps × IsSorted ps

-- The texts are the same, as a test.
abbrev pub equal : Bytes → Bytes → Bool
equal [] [] = true
equal [] (b ∷ bs) = false
equal (a ∷ as_) [] = false
equal (a ∷ as_) (b ∷ bs) = a == b && equal as_ bs

-- The first value of a key on a list.
abbrev pub find : Bytes → List Pair → Option Bytes
find k [] = none
find k (p ∷ ps) = if equal k p.key then some p.text else find k ps

-- The first answer, or else the second.
abbrev pub or_find : Option Bytes → Option Bytes → Option Bytes
or_find none b = b
or_find (some a) b = some a

less-transitive : (a b c : Bytes) → less a b ≡ true → less b c ≡ true → less a c ≡ true
unfolding less
less-transitive a [] c h k = absurd (nothing_less a h)
  where
    nothing_less : (x : Bytes) → less x [] ≡ true → ⊥
    nothing_less [] e = cc
    nothing_less (y ∷ ys) e = cc
less-transitive [] (y ∷ b) [] h k = cc
less-transitive [] (y ∷ b) (z ∷ c) h k = refl
less-transitive (x ∷ a) (y ∷ b) [] h k = cc
less-transitive (x ∷ a) (y ∷ b) (z ∷ c) h k = ground (arith, less-transitive a b c)

pub equal→same : (a b : Bytes) → equal a b ≡ true → a ≡ b
equal→same [] [] h = refl
equal→same [] (y ∷ b) h = cc
equal→same (x ∷ a) [] h = cc
equal→same (x ∷ a) (y ∷ b) h = ground (arith, equal→same a b)

pub equal-itself : (a : Bytes) → equal a a ≡ true
equal-itself [] = refl
equal-itself (x ∷ a) = ground (arith, equal-itself a)

less→not-equal : (a b : Bytes) → less a b ≡ true → equal a b ≡ false
unfolding less
less→not-equal [] [] h = cc
less→not-equal [] (y ∷ b) h = refl
less→not-equal (x ∷ a) [] h = refl
less→not-equal (x ∷ a) (y ∷ b) h = ground (arith, less→not-equal a b)

-- Two texts neither of which is less than the other are the same.
pub neither-equal : (a b : Bytes) → less a b ≡ false → less b a ≡ false → a ≡ b
unfolding less
neither-equal [] [] h k = refl
neither-equal [] (y ∷ b) h k = cc
neither-equal (x ∷ a) [] h k = cc
neither-equal (x ∷ a) (y ∷ b) h k = ground (arith, neither-equal a b)

-- A key before all others is not on the list.
pub find-none : (k : Bytes) (m : List Pair) → All (λ q. less k q.key ≡ true) m → find k m ≡ none
find-none k [] h = refl
find-none k (q ∷ qs) (h, hs) = ground (arith, less→not-equal k q.key h, find-none k qs hs)

pub All-less :
    (k l : Bytes) (m : List Pair)
    → less k l ≡ true
    → All (λ q. less l q.key ≡ true) m
    → All (λ q. less k q.key ≡ true) m
All-less k l [] h all = tt
All-less k l (q ∷ qs) h (first, all) = (less-transitive k l q.key h first, All-less k l qs h all)

All-insert :
    (k : Bytes) (p : Pair) (m : List Pair)
    → less k p.key ≡ true
    → All (λ q. less k q.key ≡ true) m
    → All (λ q. less k q.key ≡ true) (insert p m)
unfolding insert
All-insert k p [] h all = (h, tt)
All-insert k p (q ∷ qs) h (first, all) =
    let rest = All-insert k p qs h all in
    elim (Bool-cases (less p.key q.key)) [
      | inl e ↦ rw e (h, (first, all))
      | inr e ↦ elim (Bool-cases (less q.key p.key)) [
        | inl d ↦ rw (e, d) (first, rest)
        | inr d ↦ rw (e, d) (first, all)
      ]
    ]

insert-IsSorted : (p : Pair) (m : List Pair) → IsSorted m → IsSorted (insert p m)
unfolding insert
insert-IsSorted p [] s = (tt, tt)
insert-IsSorted p (q ∷ qs) (all, s) =
    let rest = insert-IsSorted p qs s in
    elim (Bool-cases (less p.key q.key)) [
      | inl e ↦ rw e ((e, All-less p.key q.key qs e all), (all, s))
      | inr e ↦ elim (Bool-cases (less q.key p.key)) [
        | inl d ↦ rw (e, d) (All-insert q.key p qs d all, rest)
        | inr d ↦ rw (e, d) (all, s)
      ]
    ]

or_find-none : (a : Option Bytes) → or_find a none ≡ a
or_find-none none = refl
or_find-none (some a) = refl

or_find-if :
    (b : Bool) (t : Bytes) (a c : Option Bytes)
    → (if b then some t else or_find a c) ≡ or_find (if b then some t else a) c
or_find-if true t a c = refl
or_find-if false t a c = refl

or_find-same :
    (b : Bool) (t u : Bytes) (a : Option Bytes)
    → (if b then some t else a) ≡ or_find (if b then some t else a) (if b then some u else none)
or_find-same true t u a = refl
or_find-same false t u a = sym (or_find-none a)

found_first :
    (k : Bytes) (p q : Pair) (qs : List Pair)
    → less p.key q.key ≡ true
    → All (λ r. less q.key r.key ≡ true) qs
    → equal k p.key ≡ true
    → find k (q ∷ qs) ≡ none
found_first k p q qs e all h =
    let at_p = equal→same k p.key h in
    find-none k (q ∷ qs) (
      subst (λ (z : Bytes). All (λ r. less z r.key ≡ true) (q ∷ qs)) (sym at_p)
        (e, All-less p.key q.key qs e all))

find-insert :
    (k : Bytes) (p : Pair) (m : List Pair)
    → IsSorted m
    → find k (insert p m) ≡ or_find (find k m) (if equal k p.key then some p.text else none)
unfolding insert
find-insert k p [] s = refl
find-insert k p (q ∷ qs) (all, s) =
    let rest = find-insert k p qs s in
    elim (Bool-cases (less p.key q.key)) [
      | inl e ↦ elim (Bool-cases (equal k p.key)) [
        | inl h ↦ rw (e, h, found_first k p q qs e all h) refl
        | inr h ↦ rw (e, h, or_find-none (find k (q ∷ qs))) refl
      ]
      | inr e ↦ elim (Bool-cases (less q.key p.key)) [
        | inl d ↦
            rw (e, d, rest)
              (or_find-if (equal k q.key) q.text (find k qs)
                (if equal k p.key then some p.text else none))
        | inr d ↦
            rw (e, d, neither-equal p.key q.key e d)
              (or_find-same (equal k q.key) q.text p.text (find k qs))
      ]
    ]

make_map-IsSorted : (ps m : List Pair) → IsSorted m → IsSorted (make_map m ps)
unfolding make_map
make_map-IsSorted [] m s = s
make_map-IsSorted (p ∷ ps) m s = make_map-IsSorted ps (insert p m) (insert-IsSorted p m s)

or_find_assoc : (a b c : Option Bytes) → or_find (or_find a b) c ≡ or_find a (or_find b c)
or_find_assoc none b c = refl
or_find_assoc (some a) b c = refl

find-make_map :
    (k : Bytes) (ps m : List Pair)
    → IsSorted m
    → find k (make_map m ps) ≡ or_find (find k m) (find k ps)
unfolding make_map
find-make_map k [] m s = sym (or_find-none (find k m))
find-make_map k (p ∷ ps) m s =
    find-make_map k ps (insert p m) (insert-IsSorted p m s)
    ∙ ap (λ a. or_find a (find k ps)) (find-insert k p m s)
    ∙ or_find_assoc (find k m) (if equal k p.key then some p.text else none) (find k ps)
    ∙ ap (or_find (find k m)) (sym (or_find-if (equal k p.key) p.text none (find k ps)))

-- The fields of an event stand in the order of their keys, no key twice, and the value of each key is the first
-- one that the caller writes for it.
pub make_map_lem :
    (k : Bytes) (ps : List Pair) → IsSorted (make_map [] ps) × (find k (make_map [] ps) ≡ find k ps)
make_map_lem k ps = (make_map-IsSorted ps [] tt, find-make_map k ps [] tt)
