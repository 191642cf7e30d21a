-- ===== src/Meta/Runs/Oldest.antt =====
-- The row that ORDER BY … LIMIT 1 selects.
use msq_lms.Base.{
  ℕ, ◌≤◌, ◌≡◌, refl, sym, ◌∙◌, subst, Bool, true, false, none, some, List, [], ◌∷◌, Memᴰ, arith,
  Bool-cases, Option-cases, inl, inr, leb, leb→le, false≢true,
}
use mathlib.Core.List.Memᴰ.{cases_cons}
use msq_lms.Meta.{PullRun}
use msq_lms.Meta.Runs.{older, oldest}

-- It is selected by the WHERE clause, and none that is selected comes before it.
pub record IsOldest (p : PullRun → Bool) (at : PullRun → ℕ) (rs : List PullRun) (r : PullRun)
    : Type 0 where
  pub member : Memᴰ r rs
  pub selected : p r ≡ true
  pub least : (s : PullRun) → Memᴰ s rs → p s ≡ true → at r ≤ at s

module _ (p : PullRun → Bool) (at : PullRun → ℕ) where
  oldest-none :
      (rs : List PullRun) → oldest p at rs ≡ none → (s : PullRun) → Memᴰ s rs → p s ≡ false
  unfolding oldest
  oldest-none [] h s m = elim m [ ]
  oldest-none (r ∷ rs) h s m = elim (Bool-cases (p r)) [
    | inl e ↦ cc (rw e at h)
    | inr e ↦ elim (cases_cons m) [
      | inl same ↦ subst (λ x. p x ≡ false) (sym same) e
      | inr k ↦ oldest-none rs (rw e at h) s k
    ]
  ]

  first-IsOldest :
      (r : PullRun) (rs : List PullRun)
      → p r ≡ true
      → oldest p at rs ≡ none
      → IsOldest p at (r ∷ rs) r
  first-IsOldest r rs e h = record {
    member = Memᴰ.head refl;
    selected = e;
    least = λ s m q. elim (cases_cons m) [
      | inl same ↦ subst (λ (x : PullRun). at r ≤ at x) (sym same) (omega arith)
      | inr k ↦ absurd (false≢true (sym (oldest-none rs h s k) ∙ q))
    ];
  }

  older-IsOldest :
      (r t : PullRun) (rs : List PullRun)
      → p r ≡ true
      → IsOldest p at rs t
      → IsOldest p at (r ∷ rs) (older at r (some t))
  unfolding older
  older-IsOldest r t rs e w = elim (Bool-cases (leb (at r) (at t))) [
    | inl first_one ↦ rw first_one record {
      member = Memᴰ.head refl;
      selected = e;
      least = λ s m q. elim (cases_cons m) [
        | inl same ↦ subst (λ (x : PullRun). at r ≤ at x) (sym same) (omega arith)
        | inr k ↦ let h = w.least s k q in let l = leb→le (at r) (at t) first_one in omega arith
      ];
    }
    | inr later ↦ rw later record {
      member = Memᴰ.tail w.member;
      selected = w.selected;
      least = λ s m q. elim (cases_cons m) [
        | inl same ↦ subst (λ (x : PullRun). at t ≤ at x) (sym same) (ground arith)
        | inr k ↦ w.least s k q
      ];
    }
  ]

  skip-IsOldest :
      (r t : PullRun) (rs : List PullRun)
      → p r ≡ false
      → IsOldest p at rs t
      → IsOldest p at (r ∷ rs) t
  skip-IsOldest r t rs e w = record {
    member = Memᴰ.tail w.member;
    selected = w.selected;
    least = λ s m q. elim (cases_cons m) [
      | inl same ↦ absurd (false≢true (sym (subst (λ x. p x ≡ false) (sym same) e) ∙ q))
      | inr k ↦ w.least s k q
    ];
  }

  pub oldest-IsOldest :
      (rs : List PullRun) {r : PullRun} → oldest p at rs ≡ some r → IsOldest p at rs r
  unfolding oldest older
  oldest-IsOldest [] h = cc
  oldest-IsOldest (x ∷ rs) {r} h = elim (Bool-cases (p x)) [
    | inl e ↦ elim (Option-cases (oldest p at rs)) [
      | inl nothing ↦
          subst (λ y. IsOldest p at (x ∷ rs) y) (let g = rw (e, nothing) at h in cc g)
            (first-IsOldest x rs e nothing)
      | inr (t, found) ↦
          subst (λ y. IsOldest p at (x ∷ rs) y) (let g = rw (e, found) at h in cc g)
            (older-IsOldest x t rs e (oldest-IsOldest rs found))
    ]
    | inr e ↦ skip-IsOldest x r rs e (oldest-IsOldest rs (rw e at h))
  ]

  -- Something is selected where a row satisfies the clause.
  pub oldest-some :
      (rs : List PullRun) (s : PullRun)
      → Memᴰ s rs
      → p s ≡ true
      → (r : PullRun) × (oldest p at rs ≡ some r)
  oldest-some rs s m q = elim (Option-cases (oldest p at rs)) [
    | inl nothing ↦ absurd (false≢true (sym (oldest-none rs nothing s m) ∙ q))
    | inr found ↦ found
  ]
