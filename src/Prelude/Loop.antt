-- ===== src/Prelude/Loop.antt =====
-- How a loop on fuel ends: `none` says that the fuel ran out.
use Prim.Native.Nat.{ℕ, zero, suc}
use mathlib.Core.Path.{◌≡◌, refl}
use mathlib.Core.Bool.{Bool, true, false}
use mathlib.Core.Option.{Option, none, some}
use april_ann.Prelude.Tests.{if◌then◌else◌}

infixl 5 ◌>>=◌
abbrev pub ◌>>=◌ {ℓ κ} : {A : Type ℓ} {B : Type κ} → Option A → (A → Option B) → Option B
none >>= f = none
some a >>= f = f a

-- The run ends, with a value that satisfies `P`.
pub data Ends {ℓ κ} {A : Type ℓ} (P : A → Type κ) : Option A → Type (ℓ ⊔ κ) where
  ends : {a : A} → P a → Ends P (some a)

module _ {ℓ κ} {A : Type ℓ} {P : A → Type κ} where
  pub Ends-map {κ'} : {Q : A → Type κ'} {r : Option A} → Ends P r → ((a : A) → P a → Q a) → Ends Q r
  Ends-map (ends p) k = ends (k _ p)

  pub Ends-some : {a : A} → Ends P (some a) → P a
  Ends-some (ends p) = p

  pub Ends-bind {ℓ' κ'} :
      {B : Type ℓ'} {Q : B → Type κ'} {r : Option A} {f : A → Option B}
      → Ends P r
      → ((a : A) → P a → Ends Q (f a))
      → Ends Q (r >>= f)
  Ends-bind (ends p) k = k _ p

  pub Ends-if :
      {x y : Option A} (b : Bool)
      → (b ≡ true → Ends P x)
      → (b ≡ false → Ends P y)
      → Ends P (if b then x else y)
  Ends-if true p q = p refl
  Ends-if false p q = q refl

  pub Ends-inv : {r : Option A} → Ends P r → (a : A) × (r ≡ some a) × P a
  Ends-inv (ends p) = (_, refl, p)

-- `for (int i = 0; i < n; i++)` over a state.
unfoldable pub for_loop {ℓ} : {A : Type ℓ} → ℕ → (ℕ → A → Option A) → A → Option A
for_loop zero step a = some a
for_loop (suc n) step a = for_loop n step a >>= step n
