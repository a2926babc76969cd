-- ===== src/WorkItems/Plan/Laws.antt =====
-- What each entry of a plan says of the label inventory.
use agent_governance.Base.{
  String, ◌≡◌, refl, sym, ◌∙◌, ◌≢◌, ◌⊎◌, inl, inr, Bool, true, false, not, ◌||◌, Option, none, some,
  List, [], ◌∷◌, ◌==◌, string_eq, if◌then◌else◌, contains, All, All-append, arith, Option-cases,
  Bool-cases,
}
use agent_governance.Base.Dict.{Dict, lookup, insert, has, has_iff, keys_of, lookup-insert}
use agent_governance.Base.Text.{sort, insert_sorted, before}
use agent_governance.WorkItems.Types.{
  LabelProjection, ProjectionIndex, GitHubLabel, noop, create, update, conflict, unmanaged,
  candidate, PlanEntry,
}
use agent_governance.WorkItems.Plan.{
  is_foreign, by_name, plan_projection, plan_projections, plan_label, plan_labels, build_plan,
}

-- the last label of that name in the inventory
abbrev pub last_named : String → Option GitHubLabel → List GitHubLabel → Option GitHubLabel
last_named name found [] = found
last_named name found (l ∷ ls) = last_named name (if l.name == name then some l else found) ls

pub lookup-by_name :
    (name : String) (ls : List GitHubLabel) (m : Dict GitHubLabel)
    → lookup name (by_name ls m) ≡ last_named name (lookup name m) ls
unfolding by_name
lookup-by_name name [] m = refl
lookup-by_name name (l ∷ ls) m =
    lookup-by_name name ls (insert l.name l m) ∙ rw (lookup-insert l.name name l m)

last_named-name :
    (name : String) (ls : List GitHubLabel) (found : Option GitHubLabel) {l : GitHubLabel}
    → ((f : GitHubLabel) → found ≡ some f → f.name ≡ name)
    → last_named name found ls ≡ some l
    → l.name ≡ name
last_named-name name [] found h e = h _ e
last_named-name name (k ∷ ls) found h e =
    last_named-name name ls (if k.name == name then some k else found) (λ f s. ground (arith, h f))
      e

pub lookup-by_name_name :
    (name : String) (inventory : List GitHubLabel) {l : GitHubLabel}
    → lookup name (by_name inventory []) ≡ some l
    → l.name ≡ name
unfolding lookup
lookup-by_name_name name inventory e =
    last_named-name name inventory none (λ f s. cc) (sym (lookup-by_name name inventory []) ∙ e)

-- Why the plan has an entry; `live` is the label that the inventory holds under the entry's name.
pub data IsJustified (index : ProjectionIndex) (live : Option GitHubLabel) (e : PlanEntry)
    : Type 0 where
  missing :
      (id : String) (p : LabelProjection)
      → lookup id index.projections ≡ some p
      → e.label_name ≡ p.name
      → e.action ≡ create
      → live ≡ none
      → IsJustified index live e
  foreign :
      (id : String) (p : LabelProjection) (l : GitHubLabel)
      → lookup id index.projections ≡ some p
      → e.label_name ≡ p.name
      → e.action ≡ conflict
      → live ≡ some l
      → l.managed ≡ some false
      → IsJustified index live e
  drifted :
      (id : String) (p : LabelProjection) (l : GitHubLabel)
      → lookup id index.projections ≡ some p
      → e.label_name ≡ p.name
      → e.action ≡ update
      → live ≡ some l
      → l.managed ≢ some false
      → (l.color ≢ p.color) ⊎ (l.description ≢ p.description)
      → IsJustified index live e
  matching :
      (id : String) (p : LabelProjection) (l : GitHubLabel)
      → lookup id index.projections ≡ some p
      → e.label_name ≡ p.name
      → e.action ≡ noop
      → live ≡ some l
      → l.managed ≢ some false
      → (l.color ≡ p.color) × (l.description ≡ p.description)
      → IsJustified index live e
  left_over :
      (l : GitHubLabel)
      → (e.action ≡ unmanaged) ⊎ (e.action ≡ candidate)
      → live ≡ some l
      → IsJustified index live e

is_foreign_iff_true : (o : Option Bool) → is_foreign o ≡ true → o ≡ some false
is_foreign_iff_true none h = cc
is_foreign_iff_true (some true) h = cc
is_foreign_iff_true (some false) h = refl

is_foreign_iff_false : (o : Option Bool) → is_foreign o ≡ false → o ≢ some false
is_foreign_iff_false none h = cc
is_foreign_iff_false (some true) h = cc
is_foreign_iff_false (some false) h = cc

module _ (index : ProjectionIndex) (inventory : List GitHubLabel) where
  abbrev live_at : PlanEntry → Option GitHubLabel
  live_at e = last_named e.label_name none inventory

  plan_projection-IsJustified :
      (id : String) (p : LabelProjection)
      → lookup id index.projections ≡ some p
      → (found : Option GitHubLabel) → last_named p.name none inventory ≡ found
      → ((l : GitHubLabel) → found ≡ some l → l.name ≡ p.name)
      → IsJustified index (live_at (plan_projection p found)) (plan_projection p found)
  unfolding plan_projection
  plan_projection-IsJustified id p own none live named = missing id p own refl refl live
  plan_projection-IsJustified id p own (some l) live named =
      let same = named l refl in
      let at_live : last_named l.name none inventory ≡ some l = simp same live in
      elim (Bool-cases (is_foreign l.managed)) [
        | inl far ↦
            rw far (foreign id p l own same refl at_live (is_foreign_iff_true l.managed far))
        | inr near ↦
            rw near
              (elim (Bool-cases
                (not (l.color == p.color) || not (l.description == p.description))) [
                  | inl changed ↦ rw changed (
                      drifted id p l own same refl at_live (is_foreign_iff_false l.managed near)
                        (ground arith))
                  | inr kept ↦ rw kept (
                      matching id p l own same refl at_live (is_foreign_iff_false l.managed near)
                        (ground arith))
                ])
      ]

  plan_projections-IsJustified :
      (ids : List String)
      → All
          (λ e. IsJustified index (live_at e) e)
          (plan_projections ids index (by_name inventory []))
  unfolding plan_projections lookup
  plan_projections-IsJustified [] = tt
  plan_projections-IsJustified (id ∷ ids) = elim (Option-cases (lookup id index.projections)) [
    | inl unknown ↦ rw (unknown, plan_projections) (plan_projections-IsJustified ids)
    | inr (p, own) ↦
        rw (own, plan_projections)
          (
            plan_projection-IsJustified id p own (lookup p.name (by_name inventory []))
                (sym (lookup-by_name p.name inventory []))
                (λ l e. lookup-by_name_name p.name inventory e),
            plan_projections-IsJustified ids,
          )
  ]

  plan_label-IsJustified :
      (name : String) (p : Option LabelProjection) (l : GitHubLabel)
      → last_named name none inventory ≡ some l
      → IsJustified index (live_at (plan_label name p)) (plan_label name p)
  unfolding plan_label
  plan_label-IsJustified name none l e = left_over l (inl refl) e
  plan_label-IsJustified name (some p) l e = left_over l (inr refl) e

  plan_labels-IsJustified :
      (names used : List String) (aliases : Dict LabelProjection)
      → All (λ name. has name (by_name inventory []) ≡ true) names
      → All (λ e. IsJustified index (live_at e) e) (plan_labels names used aliases)
  unfolding plan_labels lookup
  plan_labels-IsJustified [] used aliases h = tt
  plan_labels-IsJustified (name ∷ names) used aliases (k, h) =
      elim (Bool-cases (contains used name)) [
        | inl old ↦ rw old (plan_labels-IsJustified names used aliases h)
        | inr new ↦ rw new (elim (Option-cases (lookup name (by_name inventory []))) [
          | inl gone ↦ absurd ((has_iff name (by_name inventory [])).0 k gone)
          | inr (l, e) ↦ (
            plan_label-IsJustified name (lookup name aliases) l
                (sym (lookup-by_name name inventory []) ∙ e),
            plan_labels-IsJustified names used aliases h,
          )
        ])
      ]

All-insert_sorted :
    (P : String → Type 0) (s : String) (ss : List String)
    → P s
    → All P ss
    → All P (insert_sorted s ss)
unfolding insert_sorted
All-insert_sorted P s [] p h = (p, tt)
All-insert_sorted P s (t ∷ ts) p (q, h) = elim (Bool-cases (before t s)) [
  | inl less ↦ rw less (q, All-insert_sorted P s ts p h)
  | inr more ↦ rw more (p, (q, h))
]

All-sort : (P : String → Type 0) (ss : List String) → All P ss → All P (sort ss)
unfolding sort
All-sort P [] h = tt
All-sort P (s ∷ ss) (p, h) = All-insert_sorted P s (sort ss) p (All-sort P ss h)

All-keys {ℓ} :
    {V : Type ℓ} (P : String → Type 0) (m : Dict V)
    → ((k : String) → has k m ≡ true → P k)
    → All P (keys_of m)
unfolding has
All-keys P [] h = tt
All-keys P ((k, v) ∷ m) h = (h k (ground arith), All-keys P m (λ j e. h j (ground arith)))

-- Each entry of the plan is justified by the inventory, in which the last label of a name counts.
pub build_plan-IsJustified :
    (index : ProjectionIndex) (inventory : List GitHubLabel)
    → All
        (λ e. IsJustified index (last_named e.label_name none inventory) e)
        (build_plan index inventory)
unfolding build_plan
build_plan-IsJustified index inventory =
    let labels = by_name inventory [] in
    let ids = sort (keys_of index.projections) in
    All-append _ (plan_projections ids index labels) _
      (plan_projections-IsJustified index inventory ids)
      (plan_labels-IsJustified index inventory (sort (keys_of labels)) _ _
        (All-sort _ (keys_of labels) (All-keys _ labels (λ k h. h))))
