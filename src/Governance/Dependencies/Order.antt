-- ===== src/Governance/Dependencies/Order.antt =====
-- The order in which the walk of src/governance-contract.ts leaves the modules.
use agent_governance.Base.{
  ℕ, zero, suc, ◌≡◌, refl, subst, ◌∙◌, ap, String, true, false, List, [], ◌∷◌, string_eq, ◌==◌,
  ==_refl, contains, All, Bool-cases, inl, inr, arith, length, ok, >>=-eq-ok,
}
use agent_governance.Base.Dict.{keys_of}
use agent_governance.Governance.Dependencies.{
  Graph, Walk, walked, cyclic, exhausted, dependencies_of, then_walk, each, visit, walk,
  check_known, accepted, check_dependencies,
}

-- The dependencies of each module stand behind it, and no module stands there twice.
abbrev pub IsOrdered : Graph → List String → Type 0
IsOrdered graph [] = Unit
IsOrdered graph (id ∷ rest) =
    All (λ d. contains rest d ≡ true) (dependencies_of graph id)
    × (contains rest id ≡ false)
    × IsOrdered graph rest

-- What a walk has done: it keeps what was visited, and adds nothing that is being visited.
abbrev pub Extends : Graph → List String → List String → List String → Type 0
Extends graph visiting visited out =
    IsOrdered graph out
    × ((x : String) → contains visited x ≡ true → contains out x ≡ true)
    × ((x : String) → contains visiting x ≡ true → contains out x ≡ contains visited x)

module _ (graph : Graph) (visiting : List String) (f : String → List String → Walk)
    (sound : (id : String) (visited : List String) (out : List String)
      → IsOrdered graph visited
      → f id visited ≡ walked out
      → (contains out id ≡ true) × Extends graph visiting visited out) where
  each-Extends :
      (ids visited out : List String)
      → IsOrdered graph visited
      → each f ids visited ≡ walked out
      → All (λ d. contains out d ≡ true) ids × Extends graph visiting visited out
  unfolding each
  each-Extends [] visited out h e =
      let same : visited ≡ out = cc in
      let kept = subst (Extends graph visiting visited) same (h, λ x p. p, λ x p. refl) in
      (tt, kept)
  each-Extends (id ∷ ids) visited out h e =
      split (f id visited) refl e (λ more o. each-Extends ids more o)
    where
      split :
          (w : Walk)
          → f id visited ≡ w
          → then_walk w (each f ids) ≡ walked out
          → ((more o : List String)
              → IsOrdered graph more
              → each f ids more ≡ walked o
              → All (λ d. contains o d ≡ true) ids × Extends graph visiting more o)
          → All (λ d. contains out d ≡ true) (id ∷ ids) × Extends graph visiting visited out
      split (walked more) q e again =
          let (has, (ordered, mono, stable)) = sound id visited more h q in
          let (deps, (last, mono2, stable2)) = again more out ordered e in
          ((mono2 id has, deps), (last, λ x p. mono2 x (mono x p), λ x p. stable2 x p ∙ stable x p))
      split cyclic q e again = cc
      split exhausted q e again = cc

-- the module is added behind what it depends on
added :
    (graph : Graph) (visiting : List String) (id : String) (visited more : List String)
    → contains visiting id ≡ false
    → contains visited id ≡ false
    → All (λ d. contains more d ≡ true) (dependencies_of graph id)
      × Extends graph (id ∷ visiting) visited more
    → (contains (id ∷ more) id ≡ true) × Extends graph visiting visited (id ∷ more)
added graph visiting id visited more new fresh (deps, (ordered, mono, stable)) =
    let self = ==_refl id in
    let absent : contains more id ≡ false = stable id (ground arith) ∙ fresh in
    (
      ground arith,
      (
        (deps, absent, ordered),
        (λ x p. let kept = mono x p in ground arith),
        (λ x p.
            let other : (x == id) ≡ false = ground arith in
            let same = stable x (ground arith) in simp other same),
      ),
    )

visit-Extends :
    (fuel : ℕ) (graph : Graph) (visiting : List String) (id : String) (visited out : List String)
    → IsOrdered graph visited
    → visit fuel graph visiting id visited ≡ walked out
    → (contains out id ≡ true) × Extends graph visiting visited out
unfolding visit
visit-Extends zero graph visiting id visited out h e = cc
visit-Extends (suc fuel) graph visiting id visited out h e =
    elim (Bool-cases (contains visiting id)) [
      | inl old ↦ absurd (let stop = simp old at e in cc)
      | inr new ↦ elim (Bool-cases (contains visited id)) [
        | inl seen ↦
            let back = simp (new, seen) at e in
            let same : visited ≡ out = cc in
            let kept =
              subst (λ v. (contains v id ≡ true) × Extends graph visiting visited v) same
                (seen, (h, λ x p. p, λ x p. refl)) in
            kept
        | inr fresh ↦
            split (each (visit fuel graph (id ∷ visiting)) (dependencies_of graph id) visited)
              (simp (new, fresh) at e)
              (each-Extends graph (id ∷ visiting) (visit fuel graph (id ∷ visiting))
                (λ i v o k q. visit-Extends fuel graph (id ∷ visiting) i v o k q)
                (dependencies_of graph id) visited)
              new fresh
      ]
    ]
  where
    split :
        (w : Walk)
        → then_walk w (λ more. walked (id ∷ more)) ≡ walked out
        → ((o : List String)
            → IsOrdered graph visited
            → w ≡ walked o
            → All (λ d. contains o d ≡ true) (dependencies_of graph id)
              × Extends graph (id ∷ visiting) visited o)
        → contains visiting id ≡ false
        → contains visited id ≡ false
        → (contains out id ≡ true) × Extends graph visiting visited out
    split (walked more) q below new fresh =
        let same : (id ∷ more) ≡ out = cc in
        subst (λ v. (contains v id ≡ true) × Extends graph visiting visited v) same
          (added graph visiting id visited more new fresh (below more h refl))
    split cyclic q below new fresh = cc
    split exhausted q below new fresh = cc

walk-IsOrdered :
    (graph : Graph) (order : List String)
    → walk graph ≡ walked order
    → IsOrdered graph order × All (λ id. contains order id ≡ true) (keys_of graph)
unfolding walk
walk-IsOrdered graph order e =
    let (found, (ordered, mono, stable)) =
      each-Extends graph [] (visit (suc (length graph)) graph [])
        (λ id visited out h q. visit-Extends (suc (length graph)) graph [] id visited out h q)
        (keys_of graph) [] order tt e in
    (ordered, found)

-- If the dependencies are accepted, they have no cycle: there is an order of all modules in which the
-- dependencies of each module stand behind it and no module stands twice.
pub check_dependencies-IsOrdered :
    (graph : Graph) {order : List String}
    → check_dependencies graph ≡ ok order
    → IsOrdered graph order × All (λ id. contains order id ≡ true) (keys_of graph)
unfolding check_dependencies
check_dependencies-IsOrdered graph {order} e =
    let (u, known, rest) = >>=-eq-ok (check_known (keys_of graph) graph) _ e in
    split (walk graph) refl rest
  where
    split :
        (w : Walk)
        → walk graph ≡ w
        → accepted w ≡ ok order
        → IsOrdered graph order × All (λ id. contains order id ≡ true) (keys_of graph)
    split (walked found) q r =
        let same : found ≡ order = cc in walk-IsOrdered graph order (q ∙ ap walked same)
    split cyclic q r = cc
    split exhausted q r = cc
