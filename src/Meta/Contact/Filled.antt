-- ===== src/Meta/Contact/Filled.antt =====
-- No text of a contact is empty, where trimming leaves none.
use msq_lms.Base.{
  ◌≡◌, ◌≢◌, ◌∙◌, Option, none, some, List, [], ◌∷◌, first, filter, Option-cases, inl, inr, ◌==◌,
}
use msq_lms.Db.{Key}
use msq_lms.Intake.{blank}
use msq_lms.Meta.{MetaLeadFieldData}
use msq_lms.Meta.Contact.{then_maybe, first_value, extract_field_value, extract_by_keys}

then_maybe-some :
    {A B : Type 0} (o : Option A) (g : A → Option B) {b : B}
    → then_maybe o g ≡ some b
    → (a : A) × (g a ≡ some b)
then_maybe-some none g h = cc
then_maybe-some (some a) g h = (a, h)

-- What String.prototype.trim leaves of a text, and `undefined` for the empty text.
abbrev pub TrimsToText : (Key → Option Key) → Type 0
TrimsToText trim = (raw text : Key) → trim raw ≡ some text → text ≢ blank

extract_field_value-filled :
    (trim : Key → Option Key)
    → TrimsToText trim
    → (fs : List MetaLeadFieldData) (key text : Key) → extract_field_value trim fs key ≡ some text
    → text ≢ blank
unfolding extract_field_value first_value
extract_field_value-filled trim trims fs key text h =
    let (f, e) =
      then_maybe-some (first (filter (λ (f : MetaLeadFieldData). f.name == key) fs))
        (first_value trim) h in
    let (raw, shown) = then_maybe-some (first f.values) trim e in trims raw text shown

pub extract_by_keys-filled :
    (trim : Key → Option Key)
    → TrimsToText trim
    → (fs : List MetaLeadFieldData) (keys : List Key) (text : Key)
    → extract_by_keys trim fs keys ≡ some text
    → text ≢ blank
unfolding extract_by_keys
extract_by_keys-filled trim trims fs [] text h = cc
extract_by_keys-filled trim trims fs (key ∷ keys) text h =
    elim (Option-cases (extract_field_value trim fs key)) [
      | inl missing ↦ extract_by_keys-filled trim trims fs keys text (rw missing at h)
      | inr (value, found) ↦
          extract_field_value-filled trim trims fs key text (found ∙ (rw found at h))
    ]
