-- ===== src/Meta/Routing.antt =====
-- Which branch a lead goes to: `resolveOrgId` of meta-conversion-api
-- services/page-org-map.service.ts, `loadMappings` and `resolveMapping` of
-- services/lead-pull.service.ts, and the lateral join of `remapRun` of
-- services/lead-pull.admin.service.ts. Row-level security shows the last three the rows of one
-- tenant.
pub mod Best
pub mod Agree
pub mod Tests
use msq_lms.Base.{
  ℕ, Bool, true, false, ◌&&◌, ◌||◌, Option, none, some, List, [], ◌∷◌, first, filter, ◌==◌, leb,
  if◌then◌else◌, column_is, is_none, is_empty, contains, or_option,
}
use msq_lms.Db.{Key}
use msq_lms.Meta.{MetaLeadPlatform}

-- ext.meta_page_form_org_map
pub record PageFormRow : Type 0 where
  pub tenant_id : Key
  pub org_id : Key
  pub page_id : Key
  pub form_id : Option Key
  pub platform : MetaLeadPlatform
  pub default_campaign_type_id : Option Key
  pub is_active : Bool
  pub created_at : ℕ

pub record ResolvedOrgMapping : Type 0 where
  pub org_id : Key
  pub platform : MetaLeadPlatform

-- ORDER BY … LIMIT 1 among the rows that a WHERE clause selects.
pub better : (PageFormRow → PageFormRow → Bool) → PageFormRow → Option PageFormRow → PageFormRow
better ahead r none = r
better ahead r (some s) = if ahead r s then r else s

pub best :
    (PageFormRow → PageFormRow → Bool)
    → (PageFormRow → Bool)
    → List PageFormRow
    → Option PageFormRow
unfolding better
best ahead p [] = none
best ahead p (r ∷ rs) =
    let rest = best ahead p rs in if p r then some (better ahead r rest) else rest

-- created_at DESC
pub newer : PageFormRow → PageFormRow → Bool
newer a b = leb b.created_at a.created_at

-- (form_id IS NULL) ASC, created_at DESC
pub form_first : PageFormRow → PageFormRow → Bool
unfolding newer
form_first a b =
    if is_none a.form_id then is_none b.form_id && newer a b else is_none b.form_id || newer a b

pub is_form_row : Key → Key → PageFormRow → Bool
is_form_row tenant_id form_id r =
    r.tenant_id == tenant_id && column_is r.form_id form_id && r.is_active

pub is_page_row : Key → Key → PageFormRow → Bool
is_page_row tenant_id page_id r =
    r.tenant_id == tenant_id && r.page_id == page_id && is_none r.form_id && r.is_active

abbrev pub resolved_as : Option PageFormRow → Option ResolvedOrgMapping
resolved_as none = none
resolved_as (some r) = some (record { org_id = r.org_id; platform = r.platform })

-- The exact form, and else the page-level row. A webhook may name no form.
pub routed_row : List PageFormRow → Key → Key → Option Key → Option PageFormRow
unfolding is_form_row is_page_row best newer
routed_row rows tenant_id page_id none = best newer (is_page_row tenant_id page_id) rows
routed_row rows tenant_id page_id (some form_id) =
    or_option (first (filter (is_form_row tenant_id form_id) rows))
      (best newer (is_page_row tenant_id page_id) rows)

pub resolve_org_id : List PageFormRow → Key → Key → Option Key → Option ResolvedOrgMapping
unfolding routed_row
resolve_org_id rows tenant_id page_id form_id =
    resolved_as (routed_row rows tenant_id page_id form_id)

-- The rows of the tenant that are active, on the pages that the operator selected.
pub load_mappings : List PageFormRow → Key → List Key → List PageFormRow
load_mappings rows tenant_id page_ids =
    filter
      (λ (r : PageFormRow).
        r.tenant_id == tenant_id
        && r.is_active
        && (is_empty page_ids || contains page_ids r.page_id))
      rows

pub resolve_mapping : List PageFormRow → Key → Key → Option PageFormRow
resolve_mapping mappings page_id form_id =
    or_option (first (filter (λ (m : PageFormRow). column_is m.form_id form_id) mappings))
      (first (filter (λ (m : PageFormRow). m.page_id == page_id && is_none m.form_id) mappings))

pub is_remap_row : Key → Key → Key → PageFormRow → Bool
is_remap_row tenant_id page_id form_id r =
    r.tenant_id == tenant_id
    && r.is_active
    && (column_is r.form_id form_id || is_none r.form_id && r.page_id == page_id)

-- The row that a remap of staged leads takes.
pub remap_row : List PageFormRow → Key → Key → Key → Option PageFormRow
unfolding best form_first is_remap_row
remap_row rows tenant_id page_id form_id =
    best form_first (is_remap_row tenant_id page_id form_id) rows
