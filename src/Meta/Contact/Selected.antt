-- ===== src/Meta/Contact/Selected.antt =====
-- The answer that the query of the preview selects.
use msq_lms.Base.{
  ℕ, ◌≤◌, ◌⊎◌, ◌≡◌, refl, sym, ap, ◌∙◌, subst, Option, none, some, List, [], ◌∷◌, Memᴰ, arith,
  Bool-cases, Option-cases, inl, inr, leb, leb→le,
}
use mathlib.Core.List.Memᴰ.{cases_cons}
use msq_lms.Db.{Key}
use msq_lms.Meta.{MetaLeadFieldData}
use msq_lms.Meta.Contact.{
  first_value, extract_by_keys, array_position, nearer, candidate, nearest, select_by_keys,
}
use msq_lms.Meta.Contact.Nearest.{
  HasUniqueNames, IsNearest, AllBlank, IsNearest-unique, extract_by_keys-cases,
}

module _ (trim : Key → Option Key) (keys : List Key) where
  -- What the query selects among these answers.
  abbrev Selected : List MetaLeadFieldData → Option (ℕ × Key) → Type 0
  Selected fs selection =
      ((i : ℕ) × (text : Key) × (selection ≡ some (i, text))
        × (w : IsNearest trim fs keys text) × (w.place ≡ i))
      ⊎ ((selection ≡ none) × AllBlank trim fs keys)

  skip-Selected :
      (f : MetaLeadFieldData) (fs : List MetaLeadFieldData) (selection : Option (ℕ × Key))
      → ((j : ℕ) → array_position keys f.name ≡ some j → first_value trim f ≡ none)
      → Selected fs selection
      → Selected (f ∷ fs) selection
  skip-Selected f fs selection blank (inl (i, text, e, w, at)) = inl (
    i,
    text,
    e,
    record {
      field = w.field;
      member = Memᴰ.tail w.member;
      its_text = w.its_text;
      place = w.place;
      at_place = w.at_place;
      least = λ g j other m h k. elim (cases_cons m) [
        | inl same ↦
            let x = subst (λ (y : MetaLeadFieldData). array_position keys y.name ≡ some j) same h in
            let y = sym (ap (first_value trim) same ∙ blank j x) ∙ k in cc y
        | inr mg ↦ w.least g j other mg h k
      ];
    },
    at,
  )
  skip-Selected f fs selection blank (inr (e, all_blank)) = inr (
    e,
    λ g j m h. elim (cases_cons m) [
      | inl same ↦
          ap (first_value trim) same
          ∙ blank j (subst (λ (y : MetaLeadFieldData). array_position keys y.name ≡ some j) same h)
      | inr mg ↦ all_blank g j mg h
    ],
  )

  take-Selected :
      (f : MetaLeadFieldData) (fs : List MetaLeadFieldData) (i : ℕ) (text : Key)
      (selection : Option (ℕ × Key))
      → array_position keys f.name ≡ some i
      → first_value trim f ≡ some text
      → Selected fs selection
      → Selected (f ∷ fs) (some (nearer i text selection))
  unfolding nearer
  take-Selected f fs i text selection here value (inr (nothing, all_blank)) = rw nothing (
      inl (
        i,
        text,
        refl,
        record {
          field = f;
          member = Memᴰ.head refl;
          its_text = value;
          place = i;
          at_place = here;
          least = λ g j other m h k. elim (cases_cons m) [
            | inl same ↦
                let x =
                  sym here
                  ∙ ap (λ (y : MetaLeadFieldData). array_position keys y.name) (sym same)
                  ∙ h in
                let same_place : i ≡ j = cc x in omega arith
            | inr mg ↦ let y = sym (all_blank g j mg h) ∙ k in cc y
          ];
        },
        refl,
      ))
  take-Selected f fs i text selection here value (inl (j, other, e, w, at)) =
      rw e (elim (Bool-cases (leb i j)) [
        | inl nearer_one ↦ rw nearer_one (
            inl (
              i,
              text,
              refl,
              record {
                field = f;
                member = Memᴰ.head refl;
                its_text = value;
                place = i;
                at_place = here;
                least = λ g k t m h v. elim (cases_cons m) [
                  | inl same ↦
                      let x =
                        sym here
                        ∙ ap (λ (y : MetaLeadFieldData). array_position keys y.name) (sym same)
                        ∙ h in
                      let same_place : i ≡ k = cc x in omega arith
                  | inr mg ↦
                      let below = w.least g k t mg h v in
                      let l = leb→le i j nearer_one in omega arith
                ];
              },
              refl,
            ))
        | inr farther ↦ rw farther (
            inl (
              j,
              other,
              refl,
              record {
                field = w.field;
                member = Memᴰ.tail w.member;
                its_text = w.its_text;
                place = w.place;
                at_place = w.at_place;
                least = λ g k t m h v. elim (cases_cons m) [
                  | inl same ↦
                      let x =
                        sym here
                        ∙ ap (λ (y : MetaLeadFieldData). array_position keys y.name) (sym same)
                        ∙ h in
                      let same_place : i ≡ k = cc x in let l : j ≤ i = ground arith in omega arith
                  | inr mg ↦ w.least g k t mg h v
                ];
              },
              at,
            ))
      ])

  nearest-Selected : (fs : List MetaLeadFieldData) → Selected fs (nearest trim keys fs)
  unfolding nearest candidate
  nearest-Selected [] = inr (refl, λ g j m. elim m [ ])
  nearest-Selected (f ∷ fs) = elim (Option-cases (array_position keys f.name)) [
    | inl nowhere ↦ rw nowhere (
        skip-Selected f fs (nearest trim keys fs) (λ j h. let x = sym nowhere ∙ h in cc x)
          (nearest-Selected fs))
    | inr (i, here) ↦ elim (Option-cases (first_value trim f)) [
      | inl blank ↦
          rw (here, blank)
            (skip-Selected f fs (nearest trim keys fs) (λ j h. blank) (nearest-Selected fs))
      | inr (text, value) ↦
          rw (here, value)
            (take-Selected f fs i text (nearest trim keys fs) here value (nearest-Selected fs))
    ]
  ]

  pub trimmed_alike :
      (fs : List MetaLeadFieldData)
      → HasUniqueNames fs
      → extract_by_keys trim fs keys ≡ select_by_keys trim keys fs
  unfolding select_by_keys
  trimmed_alike fs unique = elim (extract_by_keys-cases trim fs unique keys) [
    | inl (text, found, w) ↦ elim (nearest-Selected fs) [
      | inl (i, other, e, v, at) ↦
          rw (found, e) (ap some (IsNearest-unique trim fs keys unique w v))
      | inr (nothing, all_blank) ↦
          let x = sym (all_blank w.field w.place w.member w.at_place) ∙ w.its_text in cc x
    ]
    | inr (nothing, all_blank) ↦ elim (nearest-Selected fs) [
      | inl (i, other, e, v, at) ↦
          let x = sym (all_blank v.field v.place v.member v.at_place) ∙ v.its_text in cc x
      | inr (empty, same) ↦ rw (nothing, empty) refl
    ]
  ]
