-- ===== src/Governance/Routing/Sets.antt =====
-- Membership in the vocabularies and in the set of required triggers of src/routing-catalog.ts.
use agent_governance.Base.{
  String, ◌≡◌, refl, sym, ap, ap₂, not, ◌∙◌, subst, Bool, true, false, ◌||◌, ◌⊎◌, inl, inr, List,
  [], ◌∷◌, ◌++◌, string_eq, nat_eq, ◌==◌, ==_refl, any, contains, All, Bool-cases, arith, ok,
  reject_if-eq-ok,
}
use agent_governance.Governance.Dependencies.{known}
use agent_governance.Governance.Routing.{add_all}

abbrev pub AreIn : List String → List String → Type 0
AreIn vocabulary values = All (λ v. contains vocabulary v ≡ true) values

pub known-AreIn :
    (values vocabulary : List String) (label : String) {u : Unit {0}}
    → known values vocabulary label ≡ ok u
    → AreIn vocabulary values
unfolding known
known-AreIn values vocabulary label e = members values (reject_if-eq-ok _ _ e)
  where
    members :
        (vs : List String)
        → any (λ value. not (contains vocabulary value)) vs ≡ false
        → AreIn vocabulary vs
    members [] h = tt
    members (v ∷ vs) h = (ground arith, members vs (ground arith))

contains-append :
    (xs : List String) (y z : String) → contains (xs ++ y ∷ []) z ≡ (contains xs z || z == y)
contains-append [] y z = ground arith
contains-append (x ∷ xs) y z = ground (arith, contains-append xs y z)

-- The required triggers are `tool_selection` and triggers of the catalog.
abbrev pub AreTriggers : List String → List String → Type 0
AreTriggers triggers required =
    (contains required "tool_selection" ≡ true)
    × ((t : String)
        → contains required t ≡ true
        → ("tool_selection" ≡ t) ⊎ (contains triggers t ≡ true))

grown :
    (triggers : List String) (v : String) (set : List String)
    → contains triggers v ≡ true
    → AreTriggers triggers set
    → AreTriggers triggers (set ++ v ∷ [])
grown triggers v set p (own, k) = (
  contains-append set v "tool_selection" ∙ ap (λ b. b || ("tool_selection" == v)) own,
  λ t q. split t (contains set t) refl (sym (contains-append set v t) ∙ q),
)
  where
    split :
        (t : String) (b : Bool)
        → contains set t ≡ b
        → (b || t == v) ≡ true
        → ("tool_selection" ≡ t) ⊎ (contains triggers t ≡ true)
    split t true e q = k t e
    split t false e q = let same : t ≡ v = ground arith in inr (rw same p)

pub add_all-AreTriggers :
    (triggers values set : List String)
    → AreIn triggers values
    → AreTriggers triggers set
    → AreTriggers triggers (add_all values set)
unfolding add_all
add_all-AreTriggers triggers [] set h k = k
add_all-AreTriggers triggers (v ∷ values) set (p, h) k = elim (Bool-cases (contains set v)) [
  | inl old ↦ simp old (add_all-AreTriggers triggers values set h k)
  | inr new ↦
      simp new (add_all-AreTriggers triggers values (set ++ v ∷ []) h (grown triggers v set p k))
]

pub add_all_mono :
    (values set : List String) (x : String)
    → contains set x ≡ true
    → contains (add_all values set) x ≡ true
unfolding add_all
add_all_mono [] set x h = h
add_all_mono (v ∷ values) set x h = elim (Bool-cases (contains set v)) [
  | inl old ↦ simp old (add_all_mono values set x h)
  | inr new ↦
      simp new (
        add_all_mono values (set ++ v ∷ []) x (contains-append set v x ∙ ap (λ b. b || (x == v)) h))
]

add_all-old :
    (v : String) (values set : List String)
    → contains set v ≡ true
    → add_all (v ∷ values) set ≡ add_all values set
unfolding add_all
add_all-old v values set old = simp old refl

add_all-new :
    (v : String) (values set : List String)
    → contains set v ≡ false
    → add_all (v ∷ values) set ≡ add_all values (set ++ v ∷ [])
unfolding add_all
add_all-new v values set new = simp new refl

pub add_all-AreIn : (values set : List String) → AreIn (add_all values set) values
add_all-AreIn [] set = tt
add_all-AreIn (v ∷ values) set = elim (Bool-cases (contains set v)) [
  | inl old ↦
      subst (λ out. AreIn out (v ∷ values)) (sym (add_all-old v values set old))
        (add_all_mono values set v old, add_all-AreIn values set)
  | inr new ↦
      let last : contains (set ++ v ∷ []) v ≡ true =
        contains-append set v v ∙ ap₂ ◌||◌ new (==_refl v) in
      subst (λ out. AreIn out (v ∷ values)) (sym (add_all-new v values set new))
        (add_all_mono values (set ++ v ∷ []) v last, add_all-AreIn values (set ++ v ∷ []))
]
