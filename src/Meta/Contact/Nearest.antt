-- ===== src/Meta/Contact/Nearest.antt =====
-- The answer whose key comes first, as the import finds it.
use msq_lms.Base.{
  ℕ, suc, ◌≤◌, ◌⊎◌, ◌≡◌, refl, sym, ap, ◌∙◌, subst, Bool, true, false, Option, none, some, List, [],
  ◌∷◌, first, filter, Memᴰ, arith, Bool-cases, Option-cases, inl, inr, ◌==◌, ==_iff, mem-filter,
  filter-mem, first-mem, first-none,
}
use msq_lms.Db.{Key}
use msq_lms.Meta.{MetaLeadFieldData}
use msq_lms.Meta.Contact.{first_value, extract_field_value, extract_by_keys, array_position}

-- No two answers of the form have one key.
abbrev pub HasUniqueNames : List MetaLeadFieldData → Type 0
HasUniqueNames fs = (f g : MetaLeadFieldData) → Memᴰ f fs → Memᴰ g fs → f.name ≡ g.name → f ≡ g

position_step :
    (key name : Key) (keys : List Key) {j : ℕ}
    → (name == key) ≡ false
    → array_position (key ∷ keys) name ≡ some j
    → (i : ℕ) × (array_position keys name ≡ some i) × (j ≡ suc i)
unfolding array_position
position_step key name keys {j} e h = elim (Option-cases (array_position keys name)) [
  | inl missing ↦ cc (rw (e, missing) at h)
  | inr (i, found) ↦ (i, found, let g = rw (e, found) at h in cc g)
]

position_next :
    (key name : Key) (keys : List Key) {i : ℕ}
    → (name == key) ≡ false
    → array_position keys name ≡ some i
    → array_position (key ∷ keys) name ≡ some (suc i)
unfolding array_position
position_next key name keys e h = rw (e, h) refl

position_here :
    (key name : Key) (keys : List Key)
    → (name == key) ≡ true
    → array_position (key ∷ keys) name ≡ some 0
unfolding array_position
position_here key name keys e = rw e refl

position-injective :
    (keys : List Key) (a b : Key) {i : ℕ}
    → array_position keys a ≡ some i
    → array_position keys b ≡ some i
    → a ≡ b
unfolding array_position
position-injective [] a b h k = cc
position-injective (key ∷ keys) a b {i} h k = elim (Bool-cases (a == key)) [
  | inl ea ↦ elim (Bool-cases (b == key)) [
    | inl eb ↦ (==_iff a key).0 ea ∙ sym ((==_iff b key).0 eb)
    | inr eb ↦
        let (j, found, next) = position_step key b keys eb k in
        let e : some 0 ≡ some i = sym (position_here key a keys ea) ∙ h in absurd (ground arith)
  ]
  | inr ea ↦
      let (j, found, next) = position_step key a keys ea h in
      elim (Bool-cases (b == key)) [
        | inl eb ↦
            let e : some 0 ≡ some i = sym (position_here key b keys eb) ∙ k in absurd (ground arith)
        | inr eb ↦
            let (j', found', next') = position_step key b keys eb k in
            let same : j' ≡ j = omega arith in
            position-injective keys a b found (found' ∙ ap some same)
      ]
]

module _ (trim : Key → Option Key) (fs : List MetaLeadFieldData) where
  -- The answer that is not blank and whose key comes first among the configured ones.
  pub record IsNearest (keys : List Key) (text : Key) : Type 0 where
    pub field : MetaLeadFieldData
    pub member : Memᴰ field fs
    pub its_text : first_value trim field ≡ some text
    pub place : ℕ
    pub at_place : array_position keys field.name ≡ some place
    pub least :
        (g : MetaLeadFieldData) (j : ℕ) (other : Key)
        → Memᴰ g fs
        → array_position keys g.name ≡ some j
        → first_value trim g ≡ some other
        → place ≤ j

  -- Every answer under a configured key is blank.
  abbrev pub AllBlank : List Key → Type 0
  AllBlank keys =
      (g : MetaLeadFieldData) (j : ℕ)
      → Memᴰ g fs
      → array_position keys g.name ≡ some j
      → first_value trim g ≡ none

  pub IsNearest-unique :
      (keys : List Key) {a b : Key}
      → HasUniqueNames fs
      → IsNearest keys a
      → IsNearest keys b
      → a ≡ b
  IsNearest-unique keys unique x y =
      let below = x.least y.field y.place _ y.member y.at_place y.its_text in
      let above = y.least x.field x.place _ x.member x.at_place x.its_text in
      let same_place : y.place ≡ x.place = omega arith in
      let same_name =
        position-injective keys x.field.name y.field.name x.at_place
          (y.at_place ∙ ap some same_place) in
      let same = unique x.field y.field x.member y.member same_name in
      let e = sym x.its_text ∙ ap (first_value trim) same ∙ y.its_text in cc e

  module _ (unique : HasUniqueNames fs) where
    named : Key → MetaLeadFieldData → Bool
    named key f = f.name == key

    value_of_field :
        (f : MetaLeadFieldData) (key : Key)
        → Memᴰ f fs
        → (f.name == key) ≡ true
        → extract_field_value trim fs key ≡ first_value trim f
    unfolding extract_field_value named
    value_of_field f key m e = elim (Option-cases (first (filter (named key) fs))) [
      | inl nothing ↦
          elim (subst (λ xs. Memᴰ f xs) (first-none (filter (named key) fs) nothing)
            (filter-mem (named key) m e)) [ ]
      | inr (g, found) ↦
          let (mg, eg) = mem-filter (named key) fs (first-mem (filter (named key) fs) found) in
          let same = unique g f mg m ((==_iff g.name key).0 eg ∙ sym ((==_iff f.name key).0 e)) in
          rw found (ap (first_value trim) same)
    ]

    field_of_value :
        (key text : Key)
        → extract_field_value trim fs key ≡ some text
        → (f : MetaLeadFieldData) × Memᴰ f fs
          × ((f.name == key) ≡ true)
          × (first_value trim f ≡ some text)
    unfolding extract_field_value named
    field_of_value key text h = elim (Option-cases (first (filter (named key) fs))) [
      | inl nothing ↦ cc (rw nothing at h)
      | inr (g, found) ↦
          let (mg, eg) = mem-filter (named key) fs (first-mem (filter (named key) fs) found) in
          (g, mg, eg, rw found at h)
    ]

    -- Where the first key has no text, the place of every other answer moves by one.
    pub extract_by_keys-cases :
        (keys : List Key)
        → ((text : Key) × (extract_by_keys trim fs keys ≡ some text) × IsNearest keys text)
          ⊎ ((extract_by_keys trim fs keys ≡ none) × AllBlank keys)
    unfolding extract_by_keys array_position
    extract_by_keys-cases [] = inr (refl, λ g j m h. cc)
    extract_by_keys-cases (key ∷ keys) = elim (Option-cases (extract_field_value trim fs key)) [
      | inr (text, found) ↦
          let (f, m, e, value) = field_of_value key text found in
          inl (
            text,
            rw found refl,
            record {
              field = f;
              member = m;
              its_text = value;
              place = 0;
              at_place = position_here key f.name keys e;
              least = λ g j other mg h k. omega arith;
            },
          )
      | inl blank ↦
          let elsewhere : (g : MetaLeadFieldData)
              → Memᴰ g fs
              → (other : Key) → first_value trim g ≡ some other
              → (g.name == key) ≡ false =
            λ g mg other h. elim (Bool-cases (g.name == key)) [
              | inl e ↦ let k = sym (value_of_field g key mg e ∙ h) ∙ blank in cc k
              | inr e ↦ e
            ] in
          elim (extract_by_keys-cases keys) [
            | inl (text, found, w) ↦ inl (
              text,
              rw (blank, found) refl,
              record {
                field = w.field;
                member = w.member;
                its_text = w.its_text;
                place = suc w.place;
                at_place =
                    position_next key w.field.name keys (elsewhere w.field w.member text w.its_text)
                      w.at_place;
                least = λ g j other mg h k.
                    let (i, found_g, next) =
                      position_step key g.name keys (elsewhere g mg other k) h in
                    let below = w.least g i other mg found_g k in omega arith;
              },
            )
            | inr (nothing, all_blank) ↦ inr (
              rw (blank, nothing) refl,
              λ g j mg h. elim (Option-cases (first_value trim g)) [
                | inl e ↦ e
                | inr (other, k) ↦
                    let (i, found_g, next) =
                      position_step key g.name keys (elsewhere g mg other k) h in
                    all_blank g i mg found_g
              ],
            )
          ]
    ]
