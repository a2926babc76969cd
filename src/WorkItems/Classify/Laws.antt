-- ===== src/WorkItems/Classify/Laws.antt =====
-- When a work item meets the cardinalities of its dimensions.
use agent_governance.Base.{
  ℕ, ◌≤◌, String, ◌≡◌, refl, ◌↔◌, ◌≢◌, inl, inr, none, some, List, [], ◌∷◌, ◌++◌, ◌==◌, string_eq,
  nat_eq, if◌then◌else◌, length, All, arith, ok, >>=-eq-ok, Option-cases,
}
use mathlib.Core.List.{append-nil, append_assoc}
use agent_governance.Base.Dict.{Dict, lookup, insert, lookup-insert}
use agent_governance.WorkItems.Types.{
  Cardinality, one, many, at_most_one, zero_or_more, Dimension, ClassificationIndex,
  WorkItemClassification,
}
use agent_governance.WorkItems.Classify.{
  resolve_classification, bucket_of, collect, violations_of, violations, validate_classification,
}

-- The known ids among `ids` that lie in dimension `d`, in order.
abbrev pub in_dimension : ClassificationIndex → String → List String → List String
in_dimension index d [] = []
in_dimension index d (id ∷ ids) = elim (lookup id index.classifications) [
  | none ↦ in_dimension index d ids
  | some v ↦ let rest = in_dimension index d ids in if v.dimension == d then v.id ∷ rest else rest
]

abbrev pub Meets : Cardinality → ℕ → Type 0
Meets one n = n ≡ 1
Meets many n = 1 ≤ n
Meets at_most_one n = n ≤ 1
Meets zero_or_more n = Unit

abbrev pub IsKnown : ClassificationIndex → String → Type 0
IsKnown index id = lookup id index.classifications ≢ none

collect_buckets :
    (index : ClassificationIndex) (d : String) (ids resolved : List String)
    (buckets : Dict (List String)) {r : List String × Dict (List String)}
    → collect index ids resolved buckets ≡ ok r
    → bucket_of d r.1 ≡ bucket_of d buckets ++ in_dimension index d ids
unfolding collect resolve_classification
collect_buckets index d [] resolved buckets {r} h =
    let same : (resolved, buckets) ≡ r = ground arith in rw (← same, append-nil)
collect_buckets index d (id ∷ ids) resolved buckets {r} h =
    elim (Option-cases (lookup id index.classifications)) [
      | inl missing ↦ absurd (ground arith)
      | inr (v, found) ↦
          let next = insert v.dimension (bucket_of v.dimension buckets ++ (v.id ∷ [])) buckets in
          let later =
            collect_buckets index d ids (resolved ++ (v.id ∷ [])) next {r = r} (ground arith) in
          let bucket : bucket_of d next ≡ (
              if v.dimension == d
              then bucket_of d buckets ++ (v.id ∷ [])
              else bucket_of d buckets) =
            ground (
              arith,
              lookup-insert v.dimension d (bucket_of v.dimension buckets ++ (v.id ∷ [])) buckets,
            ) in
          ground (
            arith,
            later,
            bucket,
            found,
            append_assoc (bucket_of d buckets) (v.id ∷ []) (in_dimension index d ids),
          )
    ]

violations_of-eq-nil_iff :
    (id : String) (d : Dimension) (values : List String)
    → (violations_of id d values ≡ []) ↔ Meets d.cardinality (length values)
unfolding violations_of
violations_of-eq-nil_iff id d [] = ground arith
violations_of-eq-nil_iff id d (x ∷ []) = ground arith
violations_of-eq-nil_iff id d (x ∷ y ∷ r) = ground arith

append-eq-nil {ℓ} : {A : Type ℓ} (xs ys : List A) → (xs ++ ys ≡ []) ↔ ((xs ≡ []) × (ys ≡ []))
append-eq-nil [] ys = (λ h. (refl, h), λ h. h.1)
append-eq-nil (x ∷ xs) ys = (λ h. cc, λ h. cc)

violations-eq-nil_iff :
    (index : ClassificationIndex) (ids : List String) (buckets : Dict (List String))
    → ((d : String) → bucket_of d buckets ≡ in_dimension index d ids)
    → (dimensions : Dict Dimension)
    → (violations dimensions buckets ≡ [])
      ↔ All (λ d. Meets d.1.cardinality (length (in_dimension index d.0 ids))) dimensions
unfolding violations
violations-eq-nil_iff index ids buckets h [] = (λ _. tt, λ _. refl)
violations-eq-nil_iff index ids buckets h ((id, d) ∷ rest) =
    let here = violations_of-eq-nil_iff id d (bucket_of id buckets) in
    let later = violations-eq-nil_iff index ids buckets h rest in
    let both =
      append-eq-nil (violations_of id d (bucket_of id buckets)) (violations rest buckets) in
    (
      λ e. (rw h at (here.0 (both.0 e).0), later.0 (both.0 e).1),
      λ (m, ms). both.1 (here.1 (rw h m), later.1 ms),
    )

collect_total :
    (index : ClassificationIndex) (ids resolved : List String) (buckets : Dict (List String))
    → All (IsKnown index) ids
    → (r : List String × Dict (List String)) × (collect index ids resolved buckets ≡ ok r)
unfolding collect resolve_classification
collect_total index [] resolved buckets h = ((resolved, buckets), refl)
collect_total index (id ∷ ids) resolved buckets (k, h) =
    elim (Option-cases (lookup id index.classifications)) [
      | inl missing ↦ absurd (k missing)
      | inr (v, found) ↦
          let (r, e) =
            collect_total index ids (resolved ++ (v.id ∷ []))
              (insert v.dimension (bucket_of v.dimension buckets ++ (v.id ∷ [])) buckets) h in
          (r, rw (found, resolve_classification) e)
    ]

-- If every id is known, `validateWorkItemClassification` returns, and it reports no violation
-- exactly if each dimension of the index has as many of the ids as its cardinality asks for.
pub validate_classification_iff :
    (index : ClassificationIndex) (ids : List String)
    → All (IsKnown index) ids
    → (r : WorkItemClassification) × (validate_classification index ids ≡ ok r)
      × ((r.violations ≡ [])
          ↔ All (λ d. Meets d.1.cardinality (length (in_dimension index d.0 ids))) index.dimensions)
unfolding validate_classification lookup
validate_classification_iff index ids known =
    let (r, e) = collect_total index ids [] [] known in
    (
      record { ids = r.0; violations = violations index.dimensions r.1 },
      rw e,
      violations-eq-nil_iff index ids r.1 (λ d. collect_buckets index d ids [] [] e)
          index.dimensions,
    )

collect_unknown :
    (index : ClassificationIndex) (ids resolved : List String) (buckets : Dict (List String))
    {r : List String × Dict (List String)}
    → collect index ids resolved buckets ≡ ok r
    → All (IsKnown index) ids
unfolding collect resolve_classification
collect_unknown index [] resolved buckets h = tt
collect_unknown index (id ∷ ids) resolved buckets {r} h =
    elim (Option-cases (lookup id index.classifications)) [
      | inl missing ↦ absurd (ground arith)
      | inr (v, found) ↦ (
        λ none_found. ground arith,
        collect_unknown index ids (resolved ++ (v.id ∷ []))
            (insert v.dimension (bucket_of v.dimension buckets ++ (v.id ∷ [])) buckets) {r = r}
            (ground arith),
      )
    ]

-- `validateWorkItemClassification` returns only if every id is known.
pub validate_classification-IsKnown :
    (index : ClassificationIndex) (ids : List String) {r : WorkItemClassification}
    → validate_classification index ids ≡ ok r
    → All (IsKnown index) ids
unfolding validate_classification
validate_classification-IsKnown index ids h =
    let (c, e, _) = >>=-eq-ok (collect index ids [] []) _ h in collect_unknown index ids [] [] e
