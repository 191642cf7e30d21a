-- ===== src/AutoAssign/Best.antt =====
-- The loop over the eligible rows keeps the users whose deficit no row exceeds.
use mathlib.Core.List.Memᴰ
use msq_lms.Base.{
  ℕ, ◌≡◌, refl, ◌∙◌, true, false, Option, some, none, List, [], ◌∷◌, ◌++◌, Memᴰ, All, arith,
  All-append, All-mem, Bool-cases, length, length-append, ◌<◌, inl, inr, subst, sym,
}
use msq_lms.Db.{Key}
use msq_lms.AutoAssign.{
  EligibleUser, Deficits, beats, ties, deficit, consider, scan, candidates_of, total_open,
}

module _ (arithmetic : Deficits) (total : ℕ) (owners : List Key) where
  open arithmetic use {Deficit, gt, eq, gt_irrefl, gt_eq, gt_down}

  abbrev pub dof : EligibleUser → Deficit
  dof u = deficit arithmetic total owners u

  -- `user` has a row among `rows` whose deficit compares as `d` does.
  pub record Owns (rows : List EligibleUser) (d : Deficit) (user : Key) : Type 0 where
    pub row : EligibleUser
    pub listed : Memᴰ row rows
    pub its_user : row.user_id ≡ user
    pub as_good : (x : Deficit) → gt x (dof row) ≡ gt x d

  -- The state after the loop: a best value that no row read exceeds, and its owners.
  record Kept (rows : List EligibleUser) (b : Deficit) (us : List EligibleUser)
      (r : Option Deficit × List Key) : Type 0 where
    best : Deficit
    owned : All (Owns rows best) r.1
    some_candidate : 0 < length r.1
    still : (x : Deficit) → gt x b ≡ false → gt x best ≡ false
    over : (u : EligibleUser) → Memᴰ u us → gt (dof u) best ≡ false

  Kept-cons :
      {rows us : List EligibleUser} {b b' : Deficit} {u : EligibleUser}
      {r : Option Deficit × List Key}
      → ((x : Deficit) → gt x b ≡ false → gt x b' ≡ false)
      → gt (dof u) b' ≡ false
      → Kept rows b' us r
      → Kept rows b (u ∷ us) r
  Kept-cons below here k = record {
    best = k.best;
    owned = k.owned;
    some_candidate = k.some_candidate;
    still = λ x h. k.still x (below x h);
    over = λ v m. elim (Memᴰ.cases_cons m) [
      | inl e ↦ subst (λ w. gt (dof w) k.best ≡ false) (sym e) (k.still (dof _) here)
      | inr j ↦ k.over v j
    ];
  }

  also :
      {rows : List EligibleUser} {b : Deficit} (u : EligibleUser)
      → Memᴰ u rows
      → eq (dof u) b ≡ true
      → Owns rows b u.user_id
  also u listed tied = record {
    row = u;
    listed = listed;
    its_user = refl;
    as_good = λ x. gt_eq (dof u) _ x tied;
  }

  scan-Kept :
      (rows : List EligibleUser) (b : Deficit) (candidates : List Key) (us : List EligibleUser)
      → All (Owns rows b) candidates
      → 0 < length candidates
      → ((u : EligibleUser) → Memᴰ u us → Memᴰ u rows)
      → Kept rows b us (scan arithmetic total owners (some b) candidates us)
  unfolding scan consider beats ties
  scan-Kept rows b candidates [] owned n all_in = record {
    best = b;
    owned = owned;
    some_candidate = n;
    still = λ x h. h;
    over = λ u m. elim m [ ];
  }
  scan-Kept rows b candidates (u ∷ us) owned n all_in =
      let d : Deficit = dof u in
      let mine : Owns rows d u.user_id = record {
        row = u;
        listed = all_in u (Memᴰ.head refl);
        its_user = refl;
        as_good = λ x. refl;
      } in
      let later = λ (v : EligibleUser) (m : Memᴰ v us). all_in v (Memᴰ.tail m) in
      elim (Bool-cases (gt d b)) [
        | inl above ↦ rw above (
            Kept-cons (λ x h. gt_down b x d h above) (gt_irrefl d)
              (scan-Kept rows d (u.user_id ∷ []) us (mine, tt) (omega arith) later))
        | inr not_above ↦ elim (Bool-cases (eq d b)) [
          | inl tied ↦
              rw (not_above, tied)
                (Kept-cons (λ x h. h) not_above
                  (scan-Kept rows b (candidates ++ u.user_id ∷ []) us
                    (All-append (Owns rows b) candidates (u.user_id ∷ []) owned
                      (also u (all_in u (Memᴰ.head refl)) tied, tt))
                    (omega (arith, length-append candidates (u.user_id ∷ []))) later))
          | inr less ↦
              rw (not_above, less)
                (Kept-cons (λ x h. h) not_above (scan-Kept rows b candidates us owned n later))
        ]
      ]

-- What the pick promises of a user: one of the rows is theirs, and no row has a greater deficit.
pub record IsBest (arithmetic : Deficits) (total : ℕ) (owners : List Key) (rows : List EligibleUser)
    (user : Key) : Type 0 where
  pub row : EligibleUser
  pub listed : Memᴰ row rows
  pub its_user : row.user_id ≡ user
  pub unexceeded :
      (v : EligibleUser)
      → Memᴰ v rows
      → arithmetic.gt (deficit arithmetic total owners v) (deficit arithmetic total owners row)
        ≡ false

module _ (arithmetic : Deficits) (owners : List Key) (u : EligibleUser)
    (us : List EligibleUser) where
  open arithmetic use {gt, gt_irrefl}

  abbrev total : ℕ
  total = total_open owners (u ∷ us)

  -- The loop's first round takes the first row.
  loop-Kept :
      Kept arithmetic total owners
        (u ∷ us)
        (dof arithmetic total owners u)
        us
        (scan arithmetic total owners none [] (u ∷ us))
  unfolding scan consider beats
  loop-Kept =
      scan-Kept arithmetic total owners (u ∷ us) (dof arithmetic total owners u) (u.user_id ∷ []) us
        (record { row = u; listed = Memᴰ.head refl; its_user = refl; as_good = λ x. refl }, tt)
        (omega arith) (λ v m. Memᴰ.tail m)

  -- Over at least one row the loop ends with at least one candidate.
  pub candidates_of-nonempty : 0 < length (candidates_of arithmetic owners (u ∷ us))
  unfolding candidates_of
  candidates_of-nonempty = loop-Kept.some_candidate

  loop_over :
      (v : EligibleUser)
      → Memᴰ v (u ∷ us)
      → gt (dof arithmetic total owners v) loop-Kept.best ≡ false
  loop_over v m = elim (Memᴰ.cases_cons m) [
    | inl e ↦
        subst (λ w. gt (dof arithmetic total owners w) loop-Kept.best ≡ false) (sym e)
          (loop-Kept.still _ (gt_irrefl _))
    | inr k ↦ loop-Kept.over v k
  ]

  -- Every candidate is the user of a row whose deficit no row exceeds.
  pub candidates_of-IsBest :
      {user : Key}
      → Memᴰ user (candidates_of arithmetic owners (u ∷ us))
      → IsBest arithmetic (total_open owners (u ∷ us)) owners (u ∷ us) user
  unfolding candidates_of
  candidates_of-IsBest m =
      let own = All-mem (Owns arithmetic total owners (u ∷ us) loop-Kept.best) loop-Kept.owned m in
      record {
        row = own.row;
        listed = own.listed;
        its_user = own.its_user;
        unexceeded = λ v k. own.as_good _ ∙ loop_over v k;
      }
