-- ===== src/Contracts/Effects.antt =====
-- Asynchronous calls with effects: a call takes the world, and returns a value or throws, with the
-- world that it leaves. What the program calls and does not implement is a parameter of this type.
use agent_governance.Base.{
  ◌≡◌, refl, String, Bool, false, Result, ok, err, Ensures, reject_if, reject_if-eq-ok,
}
use agent_governance.Contracts.Types.{Thrown, error}

pub data Outcome {ℓ} (A : Type ℓ) : Type ℓ where
  returned : A → Outcome A
  threw : Thrown → Outcome A

abbrev pub Eff : Type 0 → Type 0 → Type 0
Eff W A = W → Outcome A × W

-- a call that has no effects
abbrev pub lift : {W A : Type 0} → Result A → Eff W A
lift (ok a) w = (returned a, w)
lift (err e) w = (threw (error e), w)

module _ {W A B : Type 0} where
  abbrev pub continue : Outcome A → W → (A → W → Outcome B × W) → Outcome B × W
  continue (returned a) w f = f a w
  continue (threw t) w f = (threw t, w)

  infixl 5 ◌>>=◌
  abbrev pub ◌>>=◌ : (W → Outcome A × W) → (A → W → Outcome B × W) → W → Outcome B × W
  ◌>>=◌ m f w = continue (m w).0 (m w).1 f

abbrev pub on_throw : {A : Type 0} → (Thrown → Thrown) → Outcome A → Outcome A
on_throw f (returned a) = returned a
on_throw f (threw t) = threw (f t)

module _ {W A : Type 0} where
  abbrev pub give : A → W → Outcome A × W
  give a w = (returned a, w)

  abbrev pub raise : Thrown → W → Outcome A × W
  raise t w = (threw t, w)

  -- `catch` that throws again
  abbrev pub rethrow : (Thrown → Thrown) → (W → Outcome A × W) → W → Outcome A × W
  rethrow f m w = (on_throw f (m w).0, (m w).1)

  -- The call keeps `P` of the world, whether it returns or throws.
  abbrev pub Keeps : (W → Type 0) → (W → Outcome A × W) → Type 0
  Keeps P m = (w : W) → P w → P (m w).1

module _ {W A B : Type 0} where
  pub >>=-Keeps :
      (P : W → Type 0) (m : W → Outcome A × W) (f : A → W → Outcome B × W)
      → Keeps P m
      → ((a : A) → Keeps P (f a))
      → Keeps P (m >>= f)
  >>=-Keeps P m f hm hf w p = split (m w).0 (m w).1 (hm w p)
    where
      split : (o : Outcome A) (v : W) → P v → P (continue o v f).1
      split (returned a) v q = hf a v q
      split (threw t) v q = q

  -- What holds of each way in which the rest may end holds of the whole call.
  pub >>=-ends :
      (P : Outcome B × W → Type 0) (m : W → Outcome A × W) (f : A → W → Outcome B × W)
      → ((t : Thrown) (w : W) → P (threw t, w))
      → ((a : A) (w : W) → P (f a w))
      → (w : W) → P ((m >>= f) w)
  >>=-ends P m f thrown ended w = split (m w).0 (m w).1
    where
      split : (o : Outcome A) (v : W) → P (continue o v f)
      split (returned a) v = ended a v
      split (threw t) v = thrown t v

  -- What is known of how the first call ends decides what the whole call keeps.
  pub >>=-at :
      (P : W → Type 0) (Q : Outcome A → W → Type 0) (m : W → Outcome A × W)
      (f : A → W → Outcome B × W) (w : W)
      → Q (m w).0 (m w).1
      → ((t : Thrown) (v : W) → Q (threw t) v → P v)
      → ((a : A) (v : W) → Q (returned a) v → P (f a v).1)
      → P ((m >>= f) w).1
  >>=-at P Q m f w q thrown ended = split (m w).0 (m w).1 q
    where
      split : (o : Outcome A) (v : W) → Q o v → P (continue o v f).1
      split (returned a) v q = ended a v q
      split (threw t) v q = thrown t v q

pub rethrow-at :
    {W A : Type 0} (Q : Outcome A → W → Type 0) (f : Thrown → Thrown) (m : W → Outcome A × W)
    (w : W)
    → Q (m w).0 (m w).1
    → ((t : Thrown) (v : W) → Q (threw t) v → Q (threw (f t)) v)
    → Q (rethrow f m w).0 (rethrow f m w).1
rethrow-at {W} {A} Q f m w q h = split (m w).0 (m w).1 q
  where
    split : (o : Outcome A) (v : W) → Q o v → Q (on_throw f o) v
    split (returned a) v q = q
    split (threw t) v q = h t v q

-- What holds of the value, if the call returns one.
abbrev pub Gives : {A : Type 0} → (A → Type 0) → Outcome A → Type 0
Gives Q (returned a) = Q a
Gives Q (threw t) = Unit

pub >>=-Gives :
    {W A B : Type 0} (Q : A → Type 0) (R : B → Type 0) (m : W → Outcome A × W)
    (f : A → W → Outcome B × W) (w : W)
    → Gives Q (m w).0
    → ((a : A) (v : W) → Q a → Gives R (f a v).0)
    → Gives R ((m >>= f) w).0
>>=-Gives {W} {A} {B} Q R m f w q h = split (m w).0 (m w).1 q
  where
    split : (o : Outcome A) (v : W) → Gives Q o → Gives R (continue o v f).0
    split (returned a) v q = h a v q
    split (threw t) v q = tt

pub lift-Gives :
    {W A : Type 0} (Q : A → Type 0) (r : Result A) (w : W) → Ensures Q r → Gives Q (lift r w).0
lift-Gives Q (ok a) w q = q
lift-Gives Q (err e) w q = tt

pub lift-Keeps : {W A : Type 0} (P : W → Type 0) (r : Result A) → Keeps P (lift r)
lift-Keeps P (ok a) w p = p
lift-Keeps P (err e) w p = p

pub lift-world : {W A : Type 0} (r : Result A) (w : W) → (lift r w).1 ≡ w
lift-world (ok a) w = refl
lift-world (err e) w = refl

-- The rest may use what the first call has returned.
pub >>=-Keeps-with :
    {W A B : Type 0} (P : W → Type 0) (m : W → Outcome A × W) (f : A → W → Outcome B × W) (w : W)
    → P (m w).1
    → ((a : A) → (m w).0 ≡ returned a → P (f a (m w).1).1)
    → P ((m >>= f) w).1
>>=-Keeps-with {W} {A} {B} P m f w p h = split (m w).0 refl
  where
    split : (o : Outcome A) → (m w).0 ≡ o → P (continue o (m w).1 f).1
    split (returned a) e = h a e
    split (threw t) e = p

-- A call that returns has returned at each of its steps.
pub >>=-eq-returned :
    {W A B : Type 0} (m : W → Outcome A × W) (f : A → W → Outcome B × W) (w : W) {b : B}
    → ((m >>= f) w).0 ≡ returned b
    → (a : A) × (v : W) × (m w ≡ (returned a, v)) × ((f a v).0 ≡ returned b)
>>=-eq-returned {W} {A} {B} m f w {b} e = split (m w).0 (m w).1 refl e
  where
    split :
        (o : Outcome A) (v : W)
        → m w ≡ (o, v)
        → (continue o v f).0 ≡ returned b
        → (a : A) × (u : W) × (m w ≡ (returned a, u)) × ((f a u).0 ≡ returned b)
    split (returned a) v q e = (a, v, q, e)
    split (threw t) v q e = cc

pub lift-eq-returned :
    {W A : Type 0} (r : Result A) (w : W) {a : A} → (lift r w).0 ≡ returned a → r ≡ ok a
lift-eq-returned (ok b) w e = cc
lift-eq-returned (err m) w e = cc

module _ {W : Type 0} where
  -- `if (bad) throw new Error(message)`
  abbrev pub refuse_if : Bool → String → W → Outcome (Unit {0}) × W
  refuse_if bad message = lift (reject_if bad message)

  -- `try { … } finally { … }`: what the clean-up throws is thrown
  abbrev pub finally :
      {A : Type 0} → (W → Outcome A × W) → (W → Outcome (Unit {0}) × W) → W → Outcome A × W
  finally m clean w = continue (clean (m w).1).0 (clean (m w).1).1 (λ done v. ((m w).0, v))

  pub refuse_if-eq-returned :
      (bad : Bool) (message : String) (w : W) {u : Unit {0}}
      → (refuse_if bad message w).0 ≡ returned u
      → bad ≡ false
  refuse_if-eq-returned bad message w e =
      reject_if-eq-ok bad message (lift-eq-returned (reject_if bad message) w e)

  pub finally-eq-returned :
      {A : Type 0} (m : W → Outcome A × W) (clean : W → Outcome (Unit {0}) × W) (w : W) {a : A}
      → (finally m clean w).0 ≡ returned a
      → (m w).0 ≡ returned a
  finally-eq-returned {A} m clean w {a} e = split (clean (m w).1).0 (clean (m w).1).1 e
    where
      split :
          (o : Outcome (Unit {0})) (v : W)
          → (continue o v (λ done u. ((m w).0, u))).0 ≡ returned a
          → (m w).0 ≡ returned a
      split (returned u) v e = e
      split (threw t) v e = cc
