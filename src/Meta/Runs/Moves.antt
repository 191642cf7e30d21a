-- ===== src/Meta/Runs/Moves.antt =====
-- Statements that move runs, and statements that insert one.
use msq_lms.Base.{
  ℕ, ◌≡◌, refl, sym, ap, ◌∙◌, subst, Bool, false, ◌⊎◌, Option, none, some, List, [], ◌∷◌, ◌++◌, map,
  filter, any, Memᴰ, Bool-cases, inl, inr, ◌==◌, if◌then◌else◌, ==_iff, false≢true, any-false,
  mem-filter, filter-mem, true,
}
use mathlib.Core.List.Memᴰ
use mathlib.Core.List.Memᴰ.{append_cases, append_left, cases_cons}
use msq_lms.Db.{Key}
use msq_lms.Meta.{queued, TriggerKind, manual, scheduled, PullRun}
use msq_lms.Meta.Runs.{is_live, update_run, claimed_by, new_run}
use msq_lms.Meta.Runs.Edges.{Hop}

-- The primary key: two rows with one id are one row.
abbrev pub IsKeyed : List PullRun → Type 0
IsKeyed rs = (r s : PullRun) → Memᴰ r rs → Memᴰ s rs → r.id ≡ s.id → r ≡ s

-- Where a run of the next table comes from: it is new and waits, or it was a run that has made at
-- most one move.
pub data Origin (rs : List PullRun) (s : PullRun) : Type 0 where
  new_since : s.status ≡ queued → any (λ (r : PullRun). r.id == s.id) rs ≡ false → Origin rs s
  from_run : (r : PullRun) → Memᴰ r rs → r.id ≡ s.id → Hop r.status s.status → Origin rs s

-- A statement that changes runs one by one.
pub record Moves (rs after : List PullRun) : Type 0 where
  change : PullRun → PullRun
  same_id : (r : PullRun) → (change r).id ≡ r.id
  hop : (r : PullRun) → Memᴰ r rs → Hop r.status (change r).status
  pub shape : after ≡ map change rs

-- A statement that inserts a run, and deletes some.
pub record Inserts (rs after : List PullRun) : Type 0 where
  pub keeps : PullRun → Bool
  pub new : PullRun
  pub waits : new.status ≡ queued
  pub unused : any (λ (r : PullRun). r.id == new.id) rs ≡ false
  pub spares : (r : PullRun) → Memᴰ r rs → is_live r.status ≡ true → keeps r ≡ true
  pub shape : after ≡ filter keeps rs ++ new ∷ []

mem-map :
    (f : PullRun → PullRun) (rs : List PullRun) {s : PullRun}
    → Memᴰ s (map f rs)
    → (r : PullRun) × Memᴰ r rs × (s ≡ f r)
mem-map f [] m = elim m [ ]
mem-map f (r ∷ rs) m = elim (cases_cons m) [
  | inl e ↦ (r, Memᴰ.head refl, e)
  | inr k ↦ let (s, j, e) = mem-map f rs k in (s, Memᴰ.tail j, e)
]

pub Moves-IsKeyed : {rs after : List PullRun} → Moves rs after → IsKeyed rs → IsKeyed after
Moves-IsKeyed {rs} {after} w keyed a b ma mb e =
    let (r, mr, er) = mem-map w.change rs (subst (λ xs. Memᴰ a xs) w.shape ma) in
    let (s, ms, es) = mem-map w.change rs (subst (λ xs. Memᴰ b xs) w.shape mb) in
    let same : r.id ≡ s.id =
      sym (w.same_id r)
      ∙ ap (λ (x : PullRun). x.id) (sym er)
      ∙ e
      ∙ ap (λ (x : PullRun). x.id) es
      ∙ w.same_id s in
    er ∙ ap w.change (keyed r s mr ms same) ∙ sym es

inserted-cases :
    {rs after : List PullRun} (w : Inserts rs after) (s : PullRun)
    → Memᴰ s after
    → Memᴰ s rs ⊎ (s ≡ w.new)
inserted-cases {rs} w s m =
    elim (append_cases (filter w.keeps rs) (subst (λ xs. Memᴰ s xs) w.shape m)) [
      | inl k ↦ inl (mem-filter w.keeps rs k).0
      | inr k ↦ elim (cases_cons k) [ inl e ↦ inr e | inr none_left ↦ elim none_left [ ] ]
    ]

-- The new id is on no row of the table.
id_unused :
    {rs after : List PullRun} (w : Inserts rs after) (r : PullRun) → Memᴰ r rs → r.id ≡ w.new.id → ⊥
id_unused w r m e =
    let h = any-false (λ (x : PullRun). x.id == w.new.id) w.unused m in
    false≢true (sym h ∙ (==_iff r.id w.new.id).1 e)

pub Inserts-IsKeyed : {rs after : List PullRun} → Inserts rs after → IsKeyed rs → IsKeyed after
Inserts-IsKeyed {rs} {after} w keyed a b ma mb e = elim (inserted-cases w a ma) [
  | inl ka ↦ elim (inserted-cases w b mb) [
    | inl kb ↦ keyed a b ka kb e
    | inr eb ↦ absurd (id_unused w a ka (e ∙ ap (λ (x : PullRun). x.id) eb))
  ]
  | inr ea ↦ elim (inserted-cases w b mb) [
    | inl kb ↦ absurd (id_unused w b kb (sym e ∙ ap (λ (x : PullRun). x.id) ea))
    | inr eb ↦ ea ∙ sym eb
  ]
]

pub Moves-Origin :
    {rs after : List PullRun} → Moves rs after → (s : PullRun) → Memᴰ s after → Origin rs s
Moves-Origin {rs} w s m =
    let (r, mr, er) = mem-map w.change rs (subst (λ xs. Memᴰ s xs) w.shape m) in
    Origin.from_run r mr (sym (w.same_id r) ∙ ap (λ (x : PullRun). x.id) (sym er))
      (subst (λ (x : PullRun). Hop r.status x.status) (sym er) (w.hop r mr))

pub Inserts-Origin :
    {rs after : List PullRun} → Inserts rs after → (s : PullRun) → Memᴰ s after → Origin rs s
Inserts-Origin {rs} w s m = elim (inserted-cases w s m) [
  | inl k ↦ Origin.from_run s k refl (Hop.stays s.status)
  | inr e ↦ Origin.new_since (ap (λ (x : PullRun). x.status) e ∙ w.waits) (
      subst (λ k. any (λ (r : PullRun). r.id == k) rs ≡ false) (sym (ap (λ (x : PullRun). x.id) e))
        w.unused)
]

-- The run with this id is still there.
abbrev pub Remains : List PullRun → PullRun → Type 0
Remains after r = (s : PullRun) × Memᴰ s after × (s.id ≡ r.id)

pub Moves-Remains :
    {rs after : List PullRun} → Moves rs after → (r : PullRun) → Memᴰ r rs → Remains after r
Moves-Remains w r m = (
  w.change r,
  subst (λ xs. Memᴰ (w.change r) xs) (sym w.shape) (Memᴰ.map w.change m),
  w.same_id r,
)

pub Inserts-Remains :
    {rs after : List PullRun}
    → Inserts rs after
    → (r : PullRun) → Memᴰ r rs
    → is_live r.status ≡ true
    → Remains after r
Inserts-Remains w r m live = (
  r,
  subst (λ xs. Memᴰ r xs) (sym w.shape)
      (append_left (w.new ∷ []) (filter-mem w.keeps m (w.spares r m live))),
  refl,
)

pub update_run-Moves :
    (id : Key) (f : PullRun → PullRun) (rs : List PullRun)
    → ((r : PullRun) → (f r).id ≡ r.id)
    → ((r : PullRun) → Memᴰ r rs → r.id ≡ id → Hop r.status (f r).status)
    → Moves rs (update_run id f rs)
unfolding update_run
update_run-Moves id f rs ids hops = record {
  change = λ (r : PullRun). if r.id == id then f r else r;
  same_id = λ r. elim (Bool-cases (r.id == id)) [ inl e ↦ rw e (ids r) | inr e ↦ rw e refl ];
  hop = λ r m. elim (Bool-cases (r.id == id)) [
    | inl e ↦ rw e (hops r m ((==_iff r.id id).0 e))
    | inr e ↦ rw e (Hop.stays r.status)
  ];
  shape = refl;
}

map_id : (rs : List PullRun) → rs ≡ map (λ (r : PullRun). r) rs
map_id [] = refl
map_id (r ∷ rs) = ap (λ xs. r ∷ xs) (map_id rs)

pub claimed_by-Moves :
    (f : PullRun → PullRun) (choice : Option PullRun) (rs : List PullRun)
    → ((r : PullRun) → (f r).id ≡ r.id)
    → IsKeyed rs
    → ((r : PullRun) → choice ≡ some r → Memᴰ r rs × Hop r.status (f r).status)
    → Moves rs (claimed_by f choice rs).1
unfolding claimed_by
claimed_by-Moves f none rs ids keyed chosen = record {
  change = λ r. r;
  same_id = λ r. refl;
  hop = λ r m. Hop.stays r.status;
  shape = map_id rs;
}
claimed_by-Moves f (some r) rs ids keyed chosen = update_run-Moves r.id f rs ids (λ s m e.
    let (mr, c) = chosen r refl in
    subst (λ (x : PullRun). Hop x.status (f x).status) (keyed r s mr m (sym e)) c)

pub all_rows-Moves :
    (f : PullRun → PullRun) (rs : List PullRun)
    → ((r : PullRun) → (f r).id ≡ r.id)
    → ((r : PullRun) → Hop r.status (f r).status)
    → Moves rs (map f rs)
all_rows-Moves f rs ids hops = record {
  change = f;
  same_id = ids;
  hop = λ r m. hops r;
  shape = refl;
}

pub new_run-waits :
    (tenant_id : Key) (kind : TriggerKind) (actor id : Key) (now : ℕ)
    → ((new_run tenant_id kind actor id now).status ≡ queued)
      × ((new_run tenant_id kind actor id now).id ≡ id)
unfolding new_run
new_run-waits tenant_id manual actor id now = (refl, refl)
new_run-waits tenant_id scheduled actor id now = (refl, refl)
