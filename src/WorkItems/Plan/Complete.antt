-- ===== src/WorkItems/Plan/Complete.antt =====
-- The entries that a plan of `buildLabelProjectionPlan` of src/work-items.ts has for the projections
-- and for the labels.
use agent_governance.Base.{
  String, ◌≡◌, refl, sym, ap, ◌∙◌, ◌⊎◌, inl, inr, true, false, not, ◌||◌, Option, none, some, List,
  [], ◌∷◌, ◌++◌, ◌==◌, string_eq, contains, All, arith, Option-cases, Bool-cases, subst,
}
use agent_governance.Base.Dict.{Dict, lookup, keys_of, values_of}
use agent_governance.Base.Text.{sort, insert_sorted, before}
use agent_governance.WorkItems.Types.{
  LabelProjection, ProjectionIndex, GitHubLabel, noop, create, update, conflict, PlanEntry,
}
use agent_governance.WorkItems.Plan.{
  is_foreign, by_name, plan_projection, plan_projections, consumed, plan_label, plan_labels,
  aliases_of, build_plan,
}
use agent_governance.WorkItems.Plan.Laws.{
  last_named, lookup-by_name, lookup-by_name_name, IsJustified, build_plan-IsJustified,
}

-- some entry is such
abbrev pub Has : (PlanEntry → Type 0) → List PlanEntry → Type 0
Has P [] = ⊥
Has P (e ∷ es) = P e ⊎ Has P es

Has-append_left : (P : PlanEntry → Type 0) (es fs : List PlanEntry) → Has P es → Has P (es ++ fs)
Has-append_left P [] fs h = absurd h
Has-append_left P (e ∷ es) fs (inl p) = inl p
Has-append_left P (e ∷ es) fs (inr h) = inr (Has-append_left P es fs h)

Has-append_right : (P : PlanEntry → Type 0) (es fs : List PlanEntry) → Has P fs → Has P (es ++ fs)
Has-append_right P [] fs h = h
Has-append_right P (e ∷ es) fs h = inr (Has-append_right P es fs h)

-- The entry says what becomes of the label of the projection.
abbrev pub IsEntryOf : LabelProjection → PlanEntry → Type 0
IsEntryOf p e =
    (e.classification ≡ some p.classification)
    × (e.label_name ≡ p.name)
    × ((e.action ≡ create) ⊎ (e.action ≡ conflict) ⊎ (e.action ≡ update) ⊎ (e.action ≡ noop))

abbrev pub IsNamed : String → PlanEntry → Type 0
IsNamed name e = e.label_name ≡ name

plan_projection-IsEntryOf :
    (p : LabelProjection) (found : Option GitHubLabel)
    → ((l : GitHubLabel) → found ≡ some l → l.name ≡ p.name)
    → IsEntryOf p (plan_projection p found)
unfolding plan_projection
plan_projection-IsEntryOf p none named = (refl, refl, inl refl)
plan_projection-IsEntryOf p (some l) named = elim (Bool-cases (is_foreign l.managed)) [
  | inl far ↦ rw far (refl, named l refl, inr (inl refl))
  | inr near ↦
      rw near
        (elim (Bool-cases (not (l.color == p.color) || not (l.description == p.description))) [
          | inl changed ↦ rw changed (refl, named l refl, inr (inr (inl refl)))
          | inr kept ↦ rw kept (refl, named l refl, inr (inr (inr refl)))
        ])
]

plan_projection-IsNamed :
    (p : LabelProjection) (l : GitHubLabel) → IsNamed l.name (plan_projection p (some l))
unfolding plan_projection
plan_projection-IsNamed p l = elim (Bool-cases (is_foreign l.managed)) [
  | inl far ↦ rw far refl
  | inr near ↦
      rw near
        (elim (Bool-cases (not (l.color == p.color) || not (l.description == p.description))) [
          | inl changed ↦ rw changed refl
          | inr kept ↦ rw kept refl
        ])
]

contains-insert_sorted :
    (s x : String) (ss : List String) → contains (insert_sorted s ss) x ≡ contains (s ∷ ss) x
unfolding insert_sorted
contains-insert_sorted s x [] = refl
contains-insert_sorted s x (t ∷ ts) = elim (Bool-cases (before t s)) [
  | inl less ↦ let rest = contains-insert_sorted s x ts in rw less (ground arith)
  | inr more ↦ rw more refl
]

contains-sort : (x : String) (ss : List String) → contains (sort ss) x ≡ contains ss x
unfolding sort
contains-sort x [] = refl
contains-sort x (s ∷ ss) =
    contains-insert_sorted s x (sort ss) ∙ ap (λ b. x == s || b) (contains-sort x ss)

contains-keys {ℓ} :
    {V : Type ℓ} (k : String) (m : Dict V) {v : V}
    → lookup k m ≡ some v
    → contains (keys_of m) k ≡ true
unfolding lookup
contains-keys k [] h = cc
contains-keys k ((j, v) ∷ m) h = elim (Bool-cases (j == k)) [
  | inl same ↦ ground arith
  | inr other ↦ let later = simp other at h in let rest = contains-keys k m later in ground arith
]

module _ (index : ProjectionIndex) (inventory : List GitHubLabel) where
  abbrev labels : Dict GitHubLabel
  labels = by_name inventory []

  plan_projections-Has :
      (ids : List String) (id : String) (p : LabelProjection)
      → lookup id index.projections ≡ some p
      → contains ids id ≡ true
      → Has (IsEntryOf p) (plan_projections ids index labels)
  unfolding plan_projections
  plan_projections-Has [] id p own h = cc
  plan_projections-Has (j ∷ ids) id p own h = elim (Bool-cases (id == j)) [
    | inl same ↦
        let here : id ≡ j = ground arith in
        let owned : lookup j index.projections ≡ some p =
          ap (λ k. lookup k index.projections) (sym here) ∙ own in
        rw (owned, plan_projections)
          (inl (
            plan_projection-IsEntryOf p (lookup p.name labels)
              (λ l e. lookup-by_name_name p.name inventory e)))
    | inr other ↦
        let later = plan_projections-Has ids id p own (ground arith) in
        elim (Option-cases (lookup j index.projections)) [
          | inl unknown ↦ rw (unknown, plan_projections) later
          | inr (q, owned) ↦ rw (owned, plan_projections) (inr later)
        ]
  ]

  consumed-unknown :
      (id : String) (ids : List String)
      → lookup id index.projections ≡ none
      → consumed (id ∷ ids) index labels ≡ consumed ids index labels
  unfolding consumed lookup
  consumed-unknown id ids unknown = rw (unknown, consumed) refl

  consumed-gone :
      (id : String) (ids : List String) (p : LabelProjection)
      → lookup id index.projections ≡ some p
      → lookup p.name labels ≡ none
      → consumed (id ∷ ids) index labels ≡ consumed ids index labels
  unfolding consumed lookup
  consumed-gone id ids p owned gone = rw (owned, consumed) (rw (gone, consumed) refl)

  consumed-there :
      (id : String) (ids : List String) (p : LabelProjection) (l : GitHubLabel)
      → lookup id index.projections ≡ some p
      → lookup p.name labels ≡ some l
      → consumed (id ∷ ids) index labels ≡ l.name ∷ consumed ids index labels
  unfolding consumed lookup
  consumed-there id ids p l owned there = rw (owned, consumed) (rw (there, consumed) refl)

  consumed-Has :
      (ids : List String) (name : String)
      → contains (consumed ids index labels) name ≡ true
      → Has (IsNamed name) (plan_projections ids index labels)
  unfolding plan_projections consumed lookup
  consumed-Has [] name h = cc
  consumed-Has (id ∷ ids) name h = elim (Option-cases (lookup id index.projections)) [
    | inl unknown ↦
        rw (unknown, plan_projections)
          (consumed-Has ids name
            (subst (λ ns. contains ns name ≡ true) (consumed-unknown id ids unknown) h))
    | inr (p, owned) ↦
        rw (owned, plan_projections)
          (elim (Option-cases (lookup p.name labels)) [
            | inl gone ↦ inr (
                consumed-Has ids name
                  (subst (λ ns. contains ns name ≡ true) (consumed-gone id ids p owned gone) h))
            | inr (l, there) ↦
                let found =
                  subst (λ ns. contains ns name ≡ true) (consumed-there id ids p l owned there) h in
                elim (Bool-cases (name == l.name)) [
                  | inl same ↦
                      let this : l.name ≡ name = ground arith in
                      inl (rw there (plan_projection-IsNamed p l ∙ this))
                  | inr other ↦ inr (consumed-Has ids name (simp other at found))
                ]
          ])
  ]

  plan_labels-Has :
      (names used : List String) (name : String) (aliases : Dict LabelProjection)
      → contains names name ≡ true
      → contains used name ≡ false
      → Has (IsNamed name) (plan_labels names used aliases)
  unfolding plan_labels plan_label
  plan_labels-Has [] used name aliases h free = cc
  plan_labels-Has (n ∷ names) used name aliases h free = elim (Bool-cases (name == n)) [
    | inl same ↦
        let this : n ≡ name = ground arith in
        let unused : contains used n ≡ false = ap (contains used) this ∙ free in
        rw unused (inl (plan_label-IsNamed n (lookup n aliases) ∙ this))
    | inr other ↦
        let later = plan_labels-Has names used name aliases (ground arith) free in
        elim (Bool-cases (contains used n)) [
          | inl old ↦ rw old later
          | inr new ↦ rw new (inr later)
        ]
  ]
    where
      plan_label-IsNamed : (m : String) (p : Option LabelProjection) → IsNamed m (plan_label m p)
      plan_label-IsNamed m none = refl
      plan_label-IsNamed m (some p) = refl

-- The plan leaves nothing out, and each of its entries is justified. There is an entry for each
-- projection, which creates or updates its label, leaves it alone, or reports a conflict, and an entry
-- under each name of the inventory. Each entry is justified by the inventory, in which the last label of
-- a name counts: a missing label is created; a present one is in conflict if it is marked as foreign, is
-- updated if its color or description differs, and is left alone if both agree; every other entry is for
-- a label of the inventory.
pub build_plan-IsComplete :
    (index : ProjectionIndex) (inventory : List GitHubLabel)
    → All
        (λ e. IsJustified index (last_named e.label_name none inventory) e)
        (build_plan index inventory)
      × ((id : String) (p : LabelProjection)
          → lookup id index.projections ≡ some p
          → Has (IsEntryOf p) (build_plan index inventory))
      × ((name : String) (l : GitHubLabel)
          → last_named name none inventory ≡ some l
          → Has (IsNamed name) (build_plan index inventory))
unfolding build_plan lookup
build_plan-IsComplete index inventory =
    let live = by_name inventory [] in
    let ids = sort (keys_of index.projections) in
    let first = plan_projections ids index live in
    let used = consumed ids index live in
    let aliases = aliases_of (values_of index.projections) [] in
    let names = sort (keys_of live) in
    (
      build_plan-IsJustified index inventory,
      λ id p own. Has-append_left (IsEntryOf p) first (plan_labels names used aliases) (
          plan_projections-Has index inventory ids id p own (
            contains-sort id (keys_of index.projections) ∙ contains-keys id index.projections own)),
      λ name l there. elim (Bool-cases (contains used name)) [
        | inl old ↦
            Has-append_left (IsNamed name) first (plan_labels names used aliases)
              (consumed-Has index inventory ids name old)
        | inr free ↦ Has-append_right (IsNamed name) first (plan_labels names used aliases) (
            plan_labels-Has index inventory names used name aliases
              (contains-sort name (keys_of live)
                ∙ contains-keys name live (lookup-by_name name inventory [] ∙ there))
              free)
      ],
    )
