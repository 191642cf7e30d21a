-- ===== src/Meta/Contact.antt =====
-- Which answer of a form is the phone and which the email: `extractFieldValue`, `extractByKeys` and
-- `buildContactPayload` of meta-conversion-api services/lead-sync.service.ts, and the query for the
-- same of services/lead-reconcile.service.ts. `trim` is String.prototype.trim and `btrim` is SQL's:
-- each gives `none` for a text that is blank after it. Names, address and the other payloads are
-- extracted by the same function, are copied into columns, and are left out.
pub mod Filled
pub mod Nearest
pub mod Selected
pub mod Agree
use msq_lms.Base.{
  ℕ, suc, Bool, true, false, ◌&&◌, Option, none, some, List, [], ◌∷◌, first, filter, any, ◌==◌, leb,
  if◌then◌else◌, is_some, or_option,
}
use msq_lms.Db.{Key}
use msq_lms.Errors.{internal, Result, ok, err}
use msq_lms.Meta.{MetaLeadFieldData, ContactMappings}

pub record Contact : Type 0 where
  pub phone : Key
  pub email : Option Key

-- `a?.b`
abbrev pub then_maybe : {A B : Type 0} → Option A → (A → Option B) → Option B
then_maybe none f = none
then_maybe (some a) f = f a

-- The first value of a field, trimmed; `none` where there is none or it is blank.
unfoldable pub first_value : (Key → Option Key) → MetaLeadFieldData → Option Key
first_value trim f = then_maybe (first f.values) trim

module _ (trim : Key → Option Key) where
  unfoldable pub extract_field_value : List MetaLeadFieldData → Key → Option Key
  unfolding first_value
  extract_field_value field_data meta_key =
      then_maybe (first (filter (λ (f : MetaLeadFieldData). f.name == meta_key) field_data))
        (first_value trim)

  unfoldable pub extract_by_keys : List MetaLeadFieldData → List Key → Option Key
  unfolding extract_field_value
  extract_by_keys field_data [] = none
  extract_by_keys field_data (key ∷ keys) =
      or_option (extract_field_value field_data key) (extract_by_keys field_data keys)

  unfoldable pub phone_or_throw : Option Key → Option Key → Result Contact
  phone_or_throw none email = err internal
  phone_or_throw (some phone) email = ok (record { phone = phone; email = email })

  unfoldable pub build_contact_payload : List MetaLeadFieldData → ContactMappings → Result Contact
  unfolding extract_by_keys phone_or_throw
  build_contact_payload field_data mappings =
      phone_or_throw (extract_by_keys field_data mappings.phone)
        (extract_by_keys field_data mappings.email)

-- array_position(keys, name), from 0.
unfoldable pub array_position : List Key → Key → Option ℕ
array_position [] name = none
array_position (key ∷ keys) name =
    let rest = array_position keys name in
    if name == key then some 0 else elim rest [ none ↦ none | some i ↦ some (suc i) ]

-- ORDER BY position LIMIT 1: a field that comes first, and the position and the text of it.
unfoldable pub nearer : ℕ → Key → Option (ℕ × Key) → ℕ × Key
nearer i text none = (i, text)
nearer i text (some (j, other)) = if leb i j then (i, text) else (j, other)

unfoldable pub candidate : Option ℕ → Option Key → Option (ℕ × Key) → Option (ℕ × Key)
unfolding nearer
candidate none text rest = rest
candidate (some i) none rest = rest
candidate (some i) (some text) rest = some (nearer i text rest)

abbrev pub text_of : Option (ℕ × Key) → Option Key
text_of none = none
text_of (some (i, text)) = some text

module _ (btrim : Key → Option Key) (keys : List Key) where
  unfoldable pub nearest : List MetaLeadFieldData → Option (ℕ × Key)
  unfolding array_position first_value candidate
  nearest [] = none
  nearest (f ∷ fs) = candidate (array_position keys f.name) (first_value btrim f) (nearest fs)

  -- The subquery of the reconcile pass.
  unfoldable pub select_by_keys : List MetaLeadFieldData → Option Key
  select_by_keys fs = text_of (nearest fs)
