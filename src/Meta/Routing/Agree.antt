-- ===== src/Meta/Routing/Agree.antt =====
-- The webhook, the pull and the remap send a lead to the same branch.
use msq_lms.Base.{
  ◌≡◌, refl, sym, ap, ◌∙◌, subst, Bool, true, false, ◌&&◌, ◌⊎◌, Option, none, some, List, [], first,
  filter, any, any-false, any-mem, Memᴰ, arith, Bool-cases, Option-cases, inl, inr, ◌==◌, column_is,
  is_none, false≢true, mem-filter, filter-mem, first-mem, first-none,
}
use msq_lms.Db.{Key}
use msq_lms.Meta.Routing.{
  PageFormRow, best, newer, form_first, is_form_row, is_page_row, resolved_as, routed_row,
  resolve_org_id, load_mappings, resolve_mapping, is_remap_row, remap_row,
}
use msq_lms.Meta.Routing.Best.{best-none, best-mem, form_first-none}

module _ (rows : List PageFormRow) (tenant_id page_id form_id : Key) where
  -- The documented precedence: the active row of the form, or else the page-level row.
  pub data Routes (r : PageFormRow) : Type 0 where
    by_form : Memᴰ r rows → is_form_row tenant_id form_id r ≡ true → Routes r
    by_page :
        Memᴰ r rows
        → is_page_row tenant_id page_id r ≡ true
        → any (is_form_row tenant_id form_id) rows ≡ false
        → Routes r

  -- An answer that follows it: a row that routes, or none where none does.
  abbrev pub Follows : Option PageFormRow → Type 0
  Follows answer =
      ((r : PageFormRow) × (answer ≡ some r) × Routes r)
      ⊎ ((answer ≡ none)
          × (any (is_form_row tenant_id form_id) rows ≡ false)
          × (any (is_page_row tenant_id page_id) rows ≡ false))

  -- uq_meta_page_form_org_map, with a form on one page only, and
  -- uq_meta_page_form_org_map_page_level.
  pub record IsRouted : Type 0 where
    pub one_form_row :
        (r s : PageFormRow)
        → Memᴰ r rows
        → Memᴰ s rows
        → is_form_row tenant_id form_id r ≡ true
        → is_form_row tenant_id form_id s ≡ true
        → r ≡ s
    pub one_page_row :
        (r s : PageFormRow)
        → Memᴰ r rows
        → Memᴰ s rows
        → is_page_row tenant_id page_id r ≡ true
        → is_page_row tenant_id page_id s ≡ true
        → r ≡ s

  Routes-unique : IsRouted → (r s : PageFormRow) → Routes r → Routes s → r ≡ s
  Routes-unique w r s (by_form m e) (by_form k f) = w.one_form_row r s m k e f
  Routes-unique w r s (by_form m e) (by_page k f none_left) =
      absurd (false≢true (sym (any-false (is_form_row tenant_id form_id) none_left m) ∙ e))
  Routes-unique w r s (by_page m e none_left) (by_form k f) =
      absurd (false≢true (sym (any-false (is_form_row tenant_id form_id) none_left k) ∙ f))
  Routes-unique w r s (by_page m e none_left) (by_page k f h) = w.one_page_row r s m k e f

  no_route :
      (r : PageFormRow)
      → any (is_form_row tenant_id form_id) rows ≡ false
      → any (is_page_row tenant_id page_id) rows ≡ false
      → Routes r
      → ⊥
  no_route r f g (by_form m e) =
      false≢true (sym (any-false (is_form_row tenant_id form_id) f m) ∙ e)
  no_route r f g (by_page m e h) =
      false≢true (sym (any-false (is_page_row tenant_id page_id) g m) ∙ e)

  Follows-unique : IsRouted → (a b : Option PageFormRow) → Follows a → Follows b → a ≡ b
  Follows-unique w a b (inl (r, e, x)) (inl (s, f, y)) =
      e ∙ ap some (Routes-unique w r s x y) ∙ sym f
  Follows-unique w a b (inl (r, e, x)) (inr (f, g, h)) = absurd (no_route r g h x)
  Follows-unique w a b (inr (e, g, h)) (inl (s, f, y)) = absurd (no_route s g h y)
  Follows-unique w a b (inr (e, g, h)) (inr (f, i, j)) = e ∙ sym f

  -- Nothing found is nothing there.
  empty_any :
      (p : PageFormRow → Bool)
      → ((s : PageFormRow) → Memᴰ s rows → p s ≡ false)
      → any p rows ≡ false
  empty_any p h = elim (Bool-cases (any p rows)) [
    | inl e ↦ let (s, m, q) = any-mem p rows e in absurd (false≢true (sym (h s m) ∙ q))
    | inr e ↦ e
  ]

  filter_empty :
      (p : PageFormRow → Bool)
      → first (filter p rows) ≡ none
      → (s : PageFormRow) → Memᴰ s rows
      → p s ≡ false
  filter_empty p h s m = elim (Bool-cases (p s)) [
    | inl e ↦ elim (subst (λ xs. Memᴰ s xs) (first-none (filter p rows) h) (filter-mem p m e)) [ ]
    | inr e ↦ e
  ]

  routed_row-Follows : Follows (routed_row rows tenant_id page_id (some form_id))
  unfolding routed_row
  routed_row-Follows =
      let form = is_form_row tenant_id form_id in
      let page = is_page_row tenant_id page_id in
      elim (Option-cases (first (filter form rows))) [
        | inr (r, found) ↦
            let (m, e) = mem-filter form rows (first-mem (filter form rows) found) in
            rw found (inl (r, refl, Routes.by_form m e))
        | inl missing ↦
            let no_form = empty_any form (filter_empty form missing) in
            elim (Option-cases (best newer page rows)) [
              | inr (r, found) ↦
                  let (m, e) = best-mem newer page rows found in
                  rw (missing, found) (inl (r, refl, Routes.by_page m e no_form))
              | inl nothing ↦
                  rw (missing, nothing)
                    (inr (refl, no_form, empty_any page (best-none newer page rows nothing)))
            ]
      ]

  loaded : PageFormRow → Bool
  loaded r = r.tenant_id == tenant_id && r.is_active && true

  -- The mapping of a pull that is limited to no page.
  resolve_mapping-Follows :
      Follows (resolve_mapping (load_mappings rows tenant_id []) page_id form_id)
  unfolding resolve_mapping load_mappings loaded is_form_row is_page_row
  resolve_mapping-Follows =
      let exact : PageFormRow → Bool = λ (m : PageFormRow). column_is m.form_id form_id in
      let whole : PageFormRow → Bool =
        λ (m : PageFormRow). m.page_id == page_id && is_none m.form_id in
      let mappings = filter loaded rows in
      elim (Option-cases (first (filter exact mappings))) [
        | inr (r, found) ↦
            let (m, e) = mem-filter exact mappings (first-mem (filter exact mappings) found) in
            let (k, l) = mem-filter loaded rows m in
            rw found (inl (r, refl, Routes.by_form k (ground arith)))
        | inl missing ↦
            let no_form : any (is_form_row tenant_id form_id) rows ≡ false =
              empty_any (is_form_row tenant_id form_id) (λ s m.
                elim (Bool-cases (is_form_row tenant_id form_id s)) [
                  | inl e ↦
                      let mm : Memᴰ s (filter exact mappings) =
                        filter-mem exact (filter-mem loaded m (ground arith)) (ground arith) in
                      elim (subst (λ xs. Memᴰ s xs) (first-none (filter exact mappings) missing)
                        mm) [ ]
                  | inr e ↦ e
                ]) in
            elim (Option-cases (first (filter whole mappings))) [
              | inr (r, found) ↦
                  let (m, e) =
                    mem-filter whole mappings (first-mem (filter whole mappings) found) in
                  let (k, l) = mem-filter loaded rows m in
                  rw (missing, found) (inl (r, refl, Routes.by_page k (ground arith) no_form))
              | inl nothing ↦
                  let no_page : any (is_page_row tenant_id page_id) rows ≡ false =
                    empty_any (is_page_row tenant_id page_id) (λ s m.
                      elim (Bool-cases (is_page_row tenant_id page_id s)) [
                        | inl e ↦
                            let mm : Memᴰ s (filter whole mappings) =
                              filter-mem whole (filter-mem loaded m (ground arith))
                                (ground arith) in
                            elim (subst (λ xs. Memᴰ s xs)
                              (first-none (filter whole mappings) nothing) mm) [ ]
                        | inr e ↦ e
                      ]) in
                  rw (missing, nothing) (inr (refl, no_form, no_page))
            ]
      ]

  form_is_remap :
      (r : PageFormRow)
      → is_form_row tenant_id form_id r ≡ true
      → is_remap_row tenant_id page_id form_id r ≡ true
  unfolding is_form_row is_remap_row
  form_is_remap r h = ground arith

  page_is_remap :
      (r : PageFormRow)
      → is_page_row tenant_id page_id r ≡ true
      → is_remap_row tenant_id page_id form_id r ≡ true
  unfolding is_page_row is_remap_row
  page_is_remap r h = ground arith

  form_is_some :
      (r : PageFormRow) → is_form_row tenant_id form_id r ≡ true → is_none r.form_id ≡ false
  unfolding is_form_row
  form_is_some r h = ground arith

  remap_is_page :
      (r : PageFormRow)
      → is_remap_row tenant_id page_id form_id r ≡ true
      → is_none r.form_id ≡ true
      → is_page_row tenant_id page_id r ≡ true
  unfolding is_page_row is_remap_row
  remap_is_page r h n = ground arith

  remap_is_form :
      (r : PageFormRow)
      → is_remap_row tenant_id page_id form_id r ≡ true
      → is_none r.form_id ≡ false
      → is_form_row tenant_id form_id r ≡ true
  unfolding is_form_row is_remap_row
  remap_is_form r h n = ground arith

  remap_row-Follows : Follows (remap_row rows tenant_id page_id form_id)
  unfolding remap_row
  remap_row-Follows =
      let wanted = is_remap_row tenant_id page_id form_id in
      elim (Option-cases (best form_first wanted rows)) [
        | inr (r, found) ↦
            let (m, e) = best-mem form_first wanted rows found in
            elim (Bool-cases (is_none r.form_id)) [
              | inl whole ↦
                  let no_form : any (is_form_row tenant_id form_id) rows ≡ false =
                    empty_any (is_form_row tenant_id form_id) (λ s k.
                      elim (Bool-cases (is_form_row tenant_id form_id s)) [
                        | inl f ↦
                            let n =
                              form_first-none wanted rows found whole s k (form_is_remap s f) in
                            absurd (false≢true (sym (form_is_some s f) ∙ n))
                        | inr f ↦ f
                      ]) in
                  rw found (inl (r, refl, Routes.by_page m (remap_is_page r e whole) no_form))
              | inr exact ↦ rw found (inl (r, refl, Routes.by_form m (remap_is_form r e exact)))
            ]
        | inl nothing ↦
            let none_wanted = best-none form_first wanted rows nothing in
            let absent : (p : PageFormRow → Bool)
                → ((s : PageFormRow) → p s ≡ true → wanted s ≡ true)
                → any p rows ≡ false =
              λ p imp. empty_any p (λ s k. elim (Bool-cases (p s)) [
                | inl f ↦ absurd (false≢true (sym (none_wanted s k) ∙ imp s f))
                | inr f ↦ f
              ]) in
            rw nothing (
              inr (
                refl,
                absent (is_form_row tenant_id form_id) form_is_remap,
                absent (is_page_row tenant_id page_id) page_is_remap,
              ))
      ]

  -- The webhook, a pull that is limited to no page and a remap send a lead of a form to the same
  -- branch, or all to none: to the branch of the active row of its form, and where there is none, of
  -- the page-level row of its page. An active form has one row, and a page one page-level row.
  pub resolve_org_id-resolve_mapping :
      IsRouted
      → (resolve_org_id rows tenant_id page_id (some form_id)
          ≡ resolved_as (resolve_mapping (load_mappings rows tenant_id []) page_id form_id))
        × (resolve_org_id rows tenant_id page_id (some form_id)
            ≡ resolved_as (remap_row rows tenant_id page_id form_id))
        × Follows (routed_row rows tenant_id page_id (some form_id))
  unfolding resolve_org_id
  resolve_org_id-resolve_mapping w = (
    ap resolved_as (
        Follows-unique w (routed_row rows tenant_id page_id (some form_id))
          (resolve_mapping (load_mappings rows tenant_id []) page_id form_id) routed_row-Follows
          resolve_mapping-Follows),
    ap resolved_as (
        Follows-unique w (routed_row rows tenant_id page_id (some form_id))
          (remap_row rows tenant_id page_id form_id) routed_row-Follows remap_row-Follows),
    routed_row-Follows,
  )
