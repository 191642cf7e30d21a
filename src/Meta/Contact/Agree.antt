-- ===== src/Meta/Contact/Agree.antt =====
-- The import and the preview extract the same text, where no form asks under one key twice.
use msq_lms.Base.{◌≡◌, refl, ap, ap₂, All, ◌∙◌, Option, none, some, List, [], ◌∷◌}
use msq_lms.Db.{Key}
use msq_lms.Errors.{ok, ok-injective}
use msq_lms.Meta.{MetaLeadFieldData, ContactMappings}
use msq_lms.Meta.Contact.{
  Contact, phone_or_throw, build_contact_payload, first_value, extract_by_keys, array_position,
  candidate, nearest, text_of, select_by_keys,
}
use msq_lms.Meta.Contact.Nearest.{HasUniqueNames}
use msq_lms.Meta.Contact.Selected.{trimmed_alike}

nearest_agrees :
    (trim btrim : Key → Option Key) (keys : List Key) (fs : List MetaLeadFieldData)
    → All (λ (f : MetaLeadFieldData). first_value trim f ≡ first_value btrim f) fs
    → nearest trim keys fs ≡ nearest btrim keys fs
unfolding nearest
nearest_agrees trim btrim keys [] h = refl
nearest_agrees trim btrim keys (f ∷ fs) (same, others) =
    ap₂ (λ text rest. candidate (array_position keys f.name) text rest) same
      (nearest_agrees trim btrim keys fs others)

-- Where a form asks no two questions under one key, and String.prototype.trim and SQL's btrim leave
-- the same of each answer, the import and the preview extract the same text, or both none,
-- whatever the configured keys and their order.
pub extract_by_keys-select_by_keys :
    (trim btrim : Key → Option Key) (keys : List Key) (fs : List MetaLeadFieldData)
    → HasUniqueNames fs
    → All (λ (f : MetaLeadFieldData). first_value trim f ≡ first_value btrim f) fs
    → extract_by_keys trim fs keys ≡ select_by_keys btrim keys fs
unfolding select_by_keys
extract_by_keys-select_by_keys trim btrim keys fs unique alike =
    trimmed_alike trim keys fs unique ∙ ap text_of (nearest_agrees trim btrim keys fs alike)

phone_or_throw-texts :
    (trim : Key → Option Key) (phone email : Option Key) (contact : Contact)
    → phone_or_throw trim phone email ≡ ok contact
    → (phone ≡ some contact.phone) × (email ≡ contact.email)
unfolding phone_or_throw
phone_or_throw-texts trim none email contact h = cc
phone_or_throw-texts trim (some phone) email contact h =
    let e = ok-injective h in
    (ap (λ (c : Contact). some c.phone) e, ap (λ (c : Contact). c.email) e)

-- What the contact of an import holds.
pub build_contact_payload-texts :
    (trim : Key → Option Key) (fs : List MetaLeadFieldData) (mappings : ContactMappings)
    (contact : Contact)
    → build_contact_payload trim fs mappings ≡ ok contact
    → (extract_by_keys trim fs mappings.phone ≡ some contact.phone)
      × (extract_by_keys trim fs mappings.email ≡ contact.email)
unfolding build_contact_payload
build_contact_payload-texts trim fs mappings contact h =
    phone_or_throw-texts trim (extract_by_keys trim fs mappings.phone)
      (extract_by_keys trim fs mappings.email) contact h
