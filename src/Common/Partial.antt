-- ===== src/Common/Partial.antt =====
-- The monad of calls that may panic: `none` stands for a panic, or for a loop without fuel.
use mathlib.Core.Option.{Option, none, some}
use mathlib.Core.Path.{◌≡◌, refl}

infixl 5 ◌>>=◌
abbrev pub ◌>>=◌ {ℓ κ} : {A : Type ℓ} {B : Type κ} → Option A → (A → Option B) → Option B
none >>= f = none
some a >>= f = f a

-- The call yields, with a value that satisfies `P`.
pub data Yields {ℓ κ} {A : Type ℓ} (P : A → Type κ) : Option A → Type (ℓ ⊔ κ) where
  yields : {x : A} → P x → Yields P (some x)

module _ {ℓ κ} {A : Type ℓ} {P : A → Type κ} where
  -- A later step may use what the earlier one yields.
  pub Yields-bind {ℓ' κ'} :
      {B : Type ℓ'} {Q : B → Type κ'} {r : Option A} {next : A → Option B}
      → Yields P r
      → ((x : A) → P x → Yields Q (next x))
      → Yields Q (r >>= next)
  Yields-bind (yields {x} known) after = after x known

  pub Yields-map {κ'} :
      {Q : A → Type κ'} {r : Option A} → Yields P r → ((x : A) → P x → Q x) → Yields Q r
  Yields-map (yields {x} known) weaker = yields (weaker x known)

  pub Yields-inv : {r : Option A} → Yields P r → (x : A) × (r ≡ some x) × P x
  Yields-inv (yields {x} known) = (x, refl, known)

-- The inversion of a chain that succeeds.
pub >>=-eq-some {ℓ κ} :
    {A : Type ℓ} {B : Type κ} (m : Option A) (f : A → Option B) {b : B}
    → (m >>= f) ≡ some b
    → (a : A) × (m ≡ some a) × (f a ≡ some b)
>>=-eq-some none f h = cc
>>=-eq-some (some a) f h = (a, refl, h)
