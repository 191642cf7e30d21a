-- ===== src/Meta/Routing/Tests.antt =====
-- A page that is mapped as a whole, and one of its forms that is mapped to another branch.
use msq_lms.Base.{◌≡◌, sym, ap, ◌∙◌, true, none, some, List, [], ◌∷◌, Memᴰ, inl, inr, false≢true}
use mathlib.Core.List.Memᴰ.{cases_cons}
use msq_lms.Meta.{fb}
use msq_lms.Meta.Routing.{
  PageFormRow, is_form_row, is_page_row, resolved_as, routed_row, resolve_org_id, load_mappings,
  resolve_mapping, remap_row,
}
use msq_lms.Meta.Routing.Agree.{Follows, IsRouted, resolve_org_id-resolve_mapping}

abbrev form_row : PageFormRow
form_row = record {
  tenant_id = 9;
  org_id = 2;
  page_id = 31;
  form_id = some 32;
  platform = fb;
  default_campaign_type_id = none;
  is_active = true;
  created_at = 5;
}

abbrev page_row : PageFormRow
page_row = record form_row { org_id = 1; form_id = none; created_at = 8 }

abbrev mapped : List PageFormRow
mapped = form_row ∷ page_row ∷ []

run : Unit {0}
unfolding is_form_row is_page_row
run = tt

is_the_form_row : (r : PageFormRow) → Memᴰ r mapped → is_form_row 9 32 r ≡ true → r ≡ form_row
unfolding run
is_the_form_row r m e = elim (cases_cons m) [
  | inl first_one ↦ first_one
  | inr k ↦ elim (cases_cons k) [
    | inl other ↦ absurd (false≢true (ap (λ (x : PageFormRow). is_form_row 9 32 x) (sym other) ∙ e))
    | inr none_left ↦ elim none_left [ ]
  ]
]

is_the_page_row : (r : PageFormRow) → Memᴰ r mapped → is_page_row 9 31 r ≡ true → r ≡ page_row
unfolding run
is_the_page_row r m e = elim (cases_cons m) [
  | inl other ↦ absurd (false≢true (ap (λ (x : PageFormRow). is_page_row 9 31 x) (sym other) ∙ e))
  | inr k ↦ elim (cases_cons k) [ inl second_one ↦ second_one | inr none_left ↦ elim none_left [ ] ]
]

mapped-IsRouted : IsRouted mapped 9 31 32
mapped-IsRouted = record {
  one_form_row = λ r s m k e f. is_the_form_row r m e ∙ sym (is_the_form_row s k f);
  one_page_row = λ r s m k e f. is_the_page_row r m e ∙ sym (is_the_page_row s k f);
}

resolve_org_id-resolve_mapping_example :
    (resolve_org_id mapped 9 31 (some 32)
      ≡ resolved_as (resolve_mapping (load_mappings mapped 9 []) 31 32))
    × (resolve_org_id mapped 9 31 (some 32) ≡ resolved_as (remap_row mapped 9 31 32))
    × Follows mapped 9 31 32 (routed_row mapped 9 31 (some 32))
resolve_org_id-resolve_mapping_example =
    resolve_org_id-resolve_mapping mapped 9 31 32 mapped-IsRouted
