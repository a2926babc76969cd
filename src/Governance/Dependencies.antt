-- ===== src/Governance/Dependencies.antt =====
-- The check of the module dependencies in `validateIndex` of src/governance-contract.ts. The walk has
-- fuel, one step more than there are modules; Governance.Dependencies.Total is about it.
pub mod Order
pub mod Total
use agent_governance.Base.{
  ℕ, zero, suc, String, ◌<>◌, Bool, true, false, not, Option, none, some, List, [], ◌∷◌, string_eq,
  ◌==◌, if◌then◌else◌, any, contains, length, Result, ok, err, reject_if, ◌>>◌,
}
use agent_governance.Base.Dict.{Dict, lookup, keys_of}

-- the modules with their dependencies
abbrev pub Graph : Type 0
Graph = Dict (List String)

-- how a walk ends: with what has been visited, at a cycle, or without fuel
pub data Walk : Type 0 where
  walked : List String → Walk
  cyclic : Walk
  exhausted : Walk

-- `known`
unfoldable pub known : List String → List String → String → Result (Unit {0})
known values vocabulary label =
    reject_if (any (λ value. not (contains vocabulary value)) values)
      (label <> " contains unknown references")

abbrev pub or_empty : Option (List String) → List String
or_empty none = []
or_empty (some values) = values

-- `dependencies.get(id)`
unfoldable pub dependencies_of : Graph → String → List String
unfolding lookup
dependencies_of graph id = or_empty (lookup id graph)

abbrev pub then_walk : Walk → (List String → Walk) → Walk
then_walk (walked visited) rest = rest visited
then_walk cyclic rest = cyclic
then_walk exhausted rest = exhausted

-- `for (const dependency of …) visit(dependency)`
unfoldable pub each : (String → List String → Walk) → List String → List String → Walk
each visit [] visited = walked visited
each visit (id ∷ ids) visited = then_walk (visit id visited) (each visit ids)

-- `visit`: what is added to `visiting` is removed again, so it is passed down
unfoldable pub visit : ℕ → Graph → List String → String → List String → Walk
unfolding dependencies_of each
visit zero graph visiting id visited = exhausted
visit (suc fuel) graph visiting id visited =
    let below = each (visit fuel graph (id ∷ visiting)) (dependencies_of graph id) visited in
    if contains visiting id
    then cyclic
    else if contains visited id
    then walked visited
    else then_walk below (λ more. walked (id ∷ more))

-- `moduleIds.forEach(visit)`
unfoldable pub walk : Graph → Walk
unfolding visit each
walk graph = each (visit (suc (length graph)) graph []) (keys_of graph) []

unfoldable pub check_known : List String → Graph → Result (Unit {0})
unfolding known
check_known ids [] = ok tt
check_known ids ((id, values) ∷ rest) =
    known values ids ("modules." <> id <> ".dependencies") >> check_known ids rest

abbrev pub accepted : Walk → Result (List String)
accepted (walked visited) = ok visited
accepted cyclic = err "release manifest module dependencies are cyclic"
accepted exhausted = err "out of fuel"

-- the modules in the order of their visits, which the source does not keep
unfoldable pub check_dependencies : Graph → Result (List String)
unfolding check_known walk
check_dependencies graph = check_known (keys_of graph) graph >> accepted (walk graph)
