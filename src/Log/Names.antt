-- ===== src/Log/Names.antt =====
-- The short name of a source file, and the fields of an event.
use mathlib.Core.Path.{subst}
use x_pilot.Base.{
  ℕ, ◌≡◌, ◌⊎◌, inl, inr, refl, ap, ◌∙◌, Bool-cases, Option-cases, true, false, none, some, [], ◌∷◌,
  ◌++◌, All, arith,
}
use x_pilot.Base.Word.{Bytes}
use x_pilot.Log.{is_separator, after_last, short_file}

-- No separator in the text.
abbrev pub IsPlain : Bytes → Type 0
IsPlain bs = All (λ b. is_separator b ≡ false) bs

after_none : (bs : Bytes) → after_last bs ≡ none → IsPlain bs
unfolding after_last
after_none [] h = tt
after_none (b ∷ bs) h = elim (Option-cases (after_last bs)) [
  | inl e ↦ elim (Bool-cases (is_separator b)) [
    | inl k ↦ absurd (ground arith)
    | inr k ↦ (k, after_none bs e)
  ]
  | inr (s, e) ↦ absurd (ground arith)
]

after_some :
    (bs short : Bytes)
    → after_last bs ≡ some short
    → (front : Bytes) × (sep : ℕ) × (is_separator sep ≡ true)
      × (bs ≡ front ++ (sep ∷ short))
      × IsPlain short
unfolding after_last
after_some [] short h = cc
after_some (b ∷ bs) short h = elim (Option-cases (after_last bs)) [
  | inl e ↦ elim (Bool-cases (is_separator b)) [
    | inl k ↦
        let q : bs ≡ short = ground arith in
        ([], b, k, ap (◌∷◌ b) q, subst IsPlain q (after_none bs e))
    | inr k ↦ absurd (ground arith)
  ]
  | inr (s, e) ↦
      let q : s ≡ short = ground arith in
      let (front, sep, k, split, plain) = after_some bs short (e ∙ ap some q) in
      (b ∷ front, sep, k, ap (◌∷◌ b) split, plain)
]

whole_name : (file : Bytes) → after_last file ≡ none → short_file file ≡ file
unfolding short_file
whole_name file e = ground arith

last_part : (file short : Bytes) → after_last file ≡ some short → short_file file ≡ short
unfolding short_file
last_part file short e = ground arith

-- The short name of a file holds no separator, and is all of the name or what stands behind a separator of it.
pub short_file_lem :
    (file : Bytes)
    → IsPlain (short_file file)
      × ((short_file file ≡ file)
          ⊎ ((front : Bytes) × (sep : ℕ) × (is_separator sep ≡ true)
              × (file ≡ front ++ (sep ∷ short_file file))))
short_file_lem file = elim (Option-cases (after_last file)) [
  | inl e ↦ rw (whole_name file e) (after_none file e, inl refl)
  | inr (s, e) ↦
      let (front, sep, k, split, plain) = after_some file s e in
      rw (last_part file s e) (plain, inr (front, sep, k, split))
]
