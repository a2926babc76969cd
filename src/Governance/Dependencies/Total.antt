-- ===== src/Governance/Dependencies/Total.antt =====
-- The fuel of the walk of src/governance-contract.ts, and the modules that are being visited.
use agent_governance.Base.{
  ℕ, zero, suc, ◌+◌, ◌≤◌, ◌≡◌, ◌≢◌, refl, ap, String, Bool, true, false, not, List, [], ◌∷◌,
  string_eq, ◌==◌, ==_refl, if◌then◌else◌, ◌<>◌, contains, any, All, some, Bool-cases, inl, inr,
  arith, length, ok, >>=-eq-ok, reject_if-eq-ok,
}
use agent_governance.Base.Dict.{lookup, keys_of}
use agent_governance.Governance.Dependencies.{
  Graph, or_empty, Walk, walked, cyclic, exhausted, dependencies_of, then_walk, each, visit, walk,
  known, check_known,
}

removed : String → List String → List String
removed x [] = []
removed x (y ∷ ys) = let rest = removed x ys in if y == x then ys else y ∷ rest

length-removed :
    (x : String) (ys : List String) → contains ys x ≡ true → suc (length (removed x ys)) ≡ length ys
unfolding removed
length-removed x [] h = cc
length-removed x (y ∷ ys) h = ground (arith, length-removed x ys)

contains-removed :
    (x z : String) (ys : List String)
    → (x == z) ≡ false
    → contains ys z ≡ true
    → contains (removed x ys) z ≡ true
unfolding removed
contains-removed x z [] d h = cc
contains-removed x z (y ∷ ys) d h = ground (arith, contains-removed x z ys d)

abbrev AreDistinct : List String → Type 0
AreDistinct [] = Unit
AreDistinct (x ∷ xs) = (contains xs x ≡ false) × AreDistinct xs

abbrev AreIn : List String → List String → Type 0
AreIn ys xs = All (λ x. contains ys x ≡ true) xs

AreIn-removed :
    (x : String) (xs ys : List String)
    → contains xs x ≡ false
    → AreIn ys xs
    → AreIn (removed x ys) xs
AreIn-removed x [] ys new h = tt
AreIn-removed x (z ∷ xs) ys new (p, h) =
    let other : (x == z) ≡ false = ground arith in
    (contains-removed x z ys other p, AreIn-removed x xs ys (ground arith) h)

-- Distinct members are no more than there are.
length-distinct : (xs ys : List String) → AreDistinct xs → AreIn ys xs → length xs ≤ length ys
length-distinct [] ys d h = omega arith
length-distinct (x ∷ xs) ys (new, d) (p, h) =
    let rest = length-distinct xs (removed x ys) d (AreIn-removed x xs ys new h) in
    let size = length-removed x ys p in omega (arith, rest, size)

-- Every dependency is a module.
abbrev IsClosed : Graph → Type 0
IsClosed graph = (id : String) → AreIn (keys_of graph) (dependencies_of graph id)

each-ends :
    (f : String → List String → Walk) (modules ids visited : List String)
    → ((id : String) (v : List String) → contains modules id ≡ true → f id v ≢ exhausted)
    → AreIn modules ids
    → each f ids visited ≢ exhausted
unfolding each
each-ends f modules [] visited h k e = cc
each-ends f modules (id ∷ ids) visited h (p, k) e =
    split (f id visited) refl e (λ v. each-ends f modules ids v h k)
  where
    split :
        (w : Walk)
        → f id visited ≡ w
        → then_walk w (each f ids) ≡ exhausted
        → ((v : List String) → each f ids v ≢ exhausted)
        → ⊥
    split (walked more) q e later = later more e
    split cyclic q e later = cc
    split exhausted q e later = h id visited p q

then_walk-exhausted :
    (w : Walk) (f : List String → List String)
    → then_walk w (λ more. walked (f more)) ≡ exhausted
    → w ≡ exhausted
then_walk-exhausted (walked more) f e = cc
then_walk-exhausted cyclic f e = cc
then_walk-exhausted exhausted f e = refl

visit-ends :
    (fuel : ℕ) (graph : Graph) (visiting : List String) (id : String) (visited : List String)
    → IsClosed graph
    → AreDistinct visiting
    → AreIn (keys_of graph) visiting
    → suc (length (keys_of graph)) ≤ length visiting + fuel
    → contains (keys_of graph) id ≡ true
    → visit fuel graph visiting id visited ≢ exhausted
unfolding visit
visit-ends zero graph visiting id visited closed d h enough p e =
    let few = length-distinct visiting (keys_of graph) d h in absurd (omega (arith, few, enough))
visit-ends (suc fuel) graph visiting id visited closed d h enough p e =
    elim (Bool-cases (contains visiting id)) [
      | inl old ↦ let stop = simp old at e in cc
      | inr new ↦ elim (Bool-cases (contains visited id)) [
        | inl seen ↦ let back = simp (new, seen) at e in cc
        | inr fresh ↦
            each-ends (visit fuel graph (id ∷ visiting)) (keys_of graph) (dependencies_of graph id)
              visited
              (λ i v q.
                visit-ends fuel graph (id ∷ visiting) i v closed (new, d) (p, h)
                  (omega (arith, enough)) q)
              (closed id)
              (then_walk-exhausted
                (each (visit fuel graph (id ∷ visiting)) (dependencies_of graph id) visited)
                (λ more. id ∷ more) (simp (new, fresh) at e))
      ]
    ]

all_known :
    (ids values : List String)
    → any (λ value. not (contains ids value)) values ≡ false
    → AreIn ids values
all_known ids [] e = tt
all_known ids (v ∷ values) e = (ground arith, all_known ids values (ground arith))

known-AreIn :
    (values ids : List String) (label : String) {u : Unit {0}}
    → known values ids label ≡ ok u
    → AreIn ids values
unfolding known
known-AreIn values ids label e = all_known ids values (reject_if-eq-ok _ _ e)

no_dependencies : (ids : List String) (id : String) → AreIn ids (dependencies_of [] id)
unfolding dependencies_of lookup
no_dependencies ids id = tt

dependencies-AreIn :
    (ids : List String) (name : String) (values : List String) (rest : Graph) (id : String)
    → AreIn ids values
    → AreIn ids (dependencies_of rest id)
    → AreIn ids (dependencies_of ((name, values) ∷ rest) id)
unfolding dependencies_of lookup
dependencies-AreIn ids name values rest id here later = split (name == id)
  where
    split : (b : Bool) → AreIn ids (or_empty (if b then some values else lookup id rest))
    split true = here
    split false = later

check_known-IsClosed :
    (ids : List String) (graph : Graph) {u : Unit {0}}
    → check_known ids graph ≡ ok u
    → (id : String) → AreIn ids (dependencies_of graph id)
unfolding check_known
check_known-IsClosed ids [] e id = no_dependencies ids id
check_known-IsClosed ids ((name, values) ∷ rest) e id =
    let (u, here, later) =
      >>=-eq-ok (known values ids ("modules." <> name <> ".dependencies")) _ e in
    dependencies-AreIn ids name values rest id (known-AreIn values ids _ here)
      (check_known-IsClosed ids rest later id)

length-keys : (graph : Graph) → length (keys_of graph) ≡ length graph
length-keys [] = refl
length-keys ((id, values) ∷ rest) = ap suc (length-keys rest)

keys-AreIn : (ids : List String) → AreIn ids ids
keys-AreIn ids = from ids ids (λ x p. p)
  where
    from :
        (all xs : List String)
        → ((x : String) → contains xs x ≡ true → contains all x ≡ true)
        → AreIn all xs
    from all [] h = tt
    from all (x ∷ xs) h =
        let self = ==_refl x in (h x (ground arith), from all xs (λ y p. h y (ground arith)))

-- If each dependency is a module, the walk ends with an order or at a cycle, with as much fuel as it
-- has: one step more than there are modules.
pub check_known-walk :
    (graph : Graph) {u : Unit {0}}
    → check_known (keys_of graph) graph ≡ ok u
    → walk graph ≢ exhausted
unfolding walk
check_known-walk graph known =
    let closed = check_known-IsClosed (keys_of graph) graph known in
    let size = length-keys graph in
    each-ends (visit (suc (length graph)) graph []) (keys_of graph) (keys_of graph) []
      (λ id visited p.
        visit-ends (suc (length graph)) graph [] id visited closed tt tt (omega (arith, size)) p)
      (keys-AreIn (keys_of graph))
