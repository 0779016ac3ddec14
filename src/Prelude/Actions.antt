-- ===== src/Prelude/Actions.antt =====
-- A method that changes an object and may return an error: state passing with exceptions. The
-- state comes back after an error too, since what was written before it stays written.
use mathlib.Core.Bool.{Bool, true, false}
use mathlib.Core.Option.{Option, none, some}
use mathlib.Core.Path.{◌≡◌, refl, ap}
use mathlib.Core.Logic.{◌⊎◌, inl, inr}

pub data Result {ℓ κ} (E : Type κ) (A : Type ℓ) : Type (ℓ ⊔ κ) where
  ok : A → Result E A
  err : E → Result E A

abbrev pub Action : Type 0 → Type 0 → Type 0 → Type 0
Action S E A = S → Result E A × S

module _ {S E : Type 0} where
  abbrev pub pure : {A : Type 0} → A → Action S E A
  pure a s = (ok a, s)

  abbrev pub fail : {A : Type 0} → E → Action S E A
  fail e s = (err e, s)

  abbrev pub gets : {A : Type 0} → (S → A) → Action S E A
  gets f s = (ok (f s), s)

  abbrev pub modify : (S → S) → Action S E (Unit {0})
  modify f s = (ok tt, f s)

  -- `if failed { return err }`
  abbrev pub fail_if : Bool → E → Action S E (Unit {0})
  fail_if true e s = (err e, s)
  fail_if false e s = (ok tt, s)

  abbrev pub or_fail : {A : Type 0} → Option A → E → Action S E A
  or_fail none e s = (err e, s)
  or_fail (some a) e s = (ok a, s)

  -- A transaction: what it wrote is rolled back when it returns an error.
  abbrev pub transaction : {A : Type 0} → Action S E A → Action S E A
  transaction m s = let r = m s in elim r.0 [ ok a ↦ r | err e ↦ (err e, s) ]

infixl 5 ◌>>=◌ ◌>>◌
abbrev pub ◌>>=◌ : {S E A B : Type 0} → Action S E A → (A → Action S E B) → Action S E B
◌>>=◌ m f s = let r = m s in elim r.0 [ ok a ↦ f a r.1 | err e ↦ (err e, r.1) ]

abbrev pub ◌>>◌ : {S E B : Type 0} → Action S E (Unit {0}) → Action S E B → Action S E B
m >> k = m >>= λ _. k

-- What a chain does after its first part.
abbrev pub chained : {S E A B : Type 0} → (A → Action S E B) → Result E A × S → Result E B × S
chained f r = elim r.0 [ ok a ↦ f a r.1 | err e ↦ (err e, r.1) ]

-- A chain that succeeds goes through its first part.
pub bind_ok :
    {S E A B : Type 0} (m : Action S E A) (f : A → Action S E B) (s : S) {b : B}
    → ((m >>= f) s).0 ≡ ok b
    → (a : A) × ((m s).0 ≡ ok a) × ((m >>= f) s ≡ f a (m s).1)
bind_ok {S} {E} {A} {B} m f s {b} h = through (m s) h
  where
    through :
        (r : Result E A × S)
        → (chained f r).0 ≡ ok b
        → (a : A) × (r.0 ≡ ok a) × (chained f r ≡ f a r.1)
    through (ok a, s') h = (a, refl, refl)
    through (err e, s') h = cc

abbrev ended : {S E A : Type 0} → S → Result E A × S → Result E A × S
ended s r = elim r.0 [ ok a ↦ r | err e ↦ (err e, s) ]

-- A transaction that succeeds is its body.
pub transaction_ok :
    {S E A : Type 0} (m : Action S E A) (s : S) {a : A}
    → (transaction m s).0 ≡ ok a
    → transaction m s ≡ m s
transaction_ok {S} {E} {A} m s {a} h = kept (m s) h
  where
    kept : (r : Result E A × S) → (ended s r).0 ≡ ok a → ended s r ≡ r
    kept (ok a, s') h = refl
    kept (err e, s') h = cc

pub Result-cases :
    {E A : Type 0} (r : Result E A) → ((a : A) × (r ≡ ok a)) ⊎ ((e : E) × (r ≡ err e))
Result-cases (ok a) = inl (a, refl)
Result-cases (err e) = inr (e, refl)

pub ok-injective : {E A : Type 0} (a b : A) → Path (Result E A) (ok a) (ok b) → a ≡ b
ok-injective a b p = ap (λ r. elim r [ ok x ↦ x | err e ↦ a ]) p

pub or_fail_ok :
    {S E A : Type 0} (o : Option A) (e : E) (s : S) (a : A) → (or_fail o e s).0 ≡ ok a → o ≡ some a
or_fail_ok none e s a h = cc
or_fail_ok (some b) e s a h = ap some (ok-injective b a h)

-- What an action leaves true of the state, whether it succeeds or not.
abbrev pub Keeps : {S E A : Type 0} → (S → Type 0) → Action S E A → Type 0
Keeps {S} P m = (s : S) → P s → P (m s).1

pub bind-Keeps :
    {S E A B : Type 0} (P : S → Type 0) (m : Action S E A) (f : A → Action S E B)
    → Keeps P m
    → ((a : A) → Keeps P (f a))
    → Keeps P (m >>= f)
bind-Keeps {S} {E} {A} P m f first next s p = through (m s) (first s p)
  where
    through : (r : Result E A × S) → P r.1 → P (chained f r).1
    through (ok a, s') p = next a s' p
    through (err e, s') p = p

pub transaction-Keeps :
    {S E A : Type 0} (P : S → Type 0) (m : Action S E A) → Keeps P m → Keeps P (transaction m)
transaction-Keeps {S} {E} {A} P m kept s p = closed (m s) (kept s p)
  where
    closed : (r : Result E A × S) → P r.1 → P (ended s r).1
    closed (ok a, s') q = q
    closed (err e, s') q = p
