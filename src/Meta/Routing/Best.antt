-- ===== src/Meta/Routing/Best.antt =====
-- The row that ORDER BY … LIMIT 1 selects among the rows of a mapping.
use msq_lms.Base.{
  ◌≡◌, refl, sym, ◌∙◌, subst, Bool, true, false, ◌⊎◌, none, some, List, [], ◌∷◌, Memᴰ, arith,
  Bool-cases, Option-cases, inl, inr, is_none, false≢true,
}
use mathlib.Core.List.Memᴰ.{cases_cons}
use msq_lms.Meta.Routing.{PageFormRow, better, best, form_first}

module _ (ahead : PageFormRow → PageFormRow → Bool) (p : PageFormRow → Bool) where
  pub best-none :
      (rows : List PageFormRow)
      → best ahead p rows ≡ none
      → (s : PageFormRow) → Memᴰ s rows
      → p s ≡ false
  unfolding best
  best-none [] h s m = elim m [ ]
  best-none (r ∷ rows) h s m = elim (Bool-cases (p r)) [
    | inl e ↦ cc (rw e at h)
    | inr e ↦ elim (cases_cons m) [
      | inl same ↦ subst (λ x. p x ≡ false) (sym same) e
      | inr k ↦ best-none rows (rw e at h) s k
    ]
  ]

  -- The better of two is one of them.
  better-cases : (r s : PageFormRow) → (better ahead r (some s) ≡ r) ⊎ (better ahead r (some s) ≡ s)
  unfolding better
  better-cases r s = elim (Bool-cases (ahead r s)) [
    | inl e ↦ inl (rw e refl)
    | inr e ↦ inr (rw e refl)
  ]

  pub best-mem :
      (rows : List PageFormRow) {r : PageFormRow}
      → best ahead p rows ≡ some r
      → Memᴰ r rows × (p r ≡ true)
  unfolding best better
  best-mem [] h = cc
  best-mem (x ∷ rows) {r} h = elim (Bool-cases (p x)) [
    | inl e ↦ elim (Option-cases (best ahead p rows)) [
      | inl nothing ↦
          let same : x ≡ r = let g = rw (e, nothing) at h in cc g in
          (Memᴰ.head (sym same), subst (λ y. p y ≡ true) same e)
      | inr (t, found) ↦
          let (mt, pt) = best-mem rows found in
          let won : better ahead x (some t) ≡ r = let g = rw (e, found) at h in cc g in
          elim (better-cases x t) [
            | inl is_x ↦
                let same : r ≡ x = sym won ∙ is_x in
                (Memᴰ.head same, subst (λ y. p y ≡ true) (sym same) e)
            | inr is_t ↦
                let same : r ≡ t = sym won ∙ is_t in
                (
                  Memᴰ.tail (subst (λ y. Memᴰ y rows) (sym same) mt),
                  subst (λ y. p y ≡ true) (sym same) pt,
                )
          ]
    ]
    | inr e ↦ let (m, h') = best-mem rows (rw e at h) in (Memᴰ.tail m, h')
  ]

better-form :
    (x t : PageFormRow)
    → is_none (better form_first x (some t)).form_id ≡ true
    → (is_none x.form_id ≡ true) × (is_none t.form_id ≡ true)
unfolding better form_first
better-form x t h = (ground arith, ground arith)

-- Where a page-level row is taken although a row of the form could be, there is none of the form.
pub form_first-none :
    (p : PageFormRow → Bool) (rows : List PageFormRow) {r : PageFormRow}
    → best form_first p rows ≡ some r
    → is_none r.form_id ≡ true
    → (s : PageFormRow) → Memᴰ s rows
    → p s ≡ true
    → is_none s.form_id ≡ true
unfolding best better
form_first-none p [] h n s m q = elim m [ ]
form_first-none p (x ∷ rows) {r} h n s m q = elim (Bool-cases (p x)) [
  | inl e ↦ elim (Option-cases (best form_first p rows)) [
    | inl nothing ↦
        let same : x ≡ r = let g = rw (e, nothing) at h in cc g in
        elim (cases_cons m) [
          | inl is_x ↦ subst (λ (y : PageFormRow). is_none y.form_id ≡ true) (sym (is_x ∙ same)) n
          | inr k ↦ absurd (false≢true (sym (best-none form_first p rows nothing s k) ∙ q))
        ]
    | inr (t, found) ↦
        let won : better form_first x (some t) ≡ r = let g = rw (e, found) at h in cc g in
        let (nx, nt) =
          better-form x t (subst (λ (y : PageFormRow). is_none y.form_id ≡ true) (sym won) n) in
        elim (cases_cons m) [
          | inl is_x ↦ subst (λ (y : PageFormRow). is_none y.form_id ≡ true) (sym is_x) nx
          | inr k ↦ form_first-none p rows found nt s k q
        ]
  ]
  | inr e ↦ elim (cases_cons m) [
    | inl same ↦ absurd (false≢true (sym (subst (λ y. p y ≡ false) (sym same) e) ∙ q))
    | inr k ↦ form_first-none p rows (rw e at h) n s k q
  ]
]
