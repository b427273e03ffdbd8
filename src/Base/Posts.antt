-- ===== src/Base/Posts.antt =====
-- What a computation that may fail says of its result: nothing, where it fails.
use mathlib.Core.Bool.{Bool, false, true}
use mathlib.Core.Option.{Option, none, some}
use mathlib.Core.Path.{refl, ◌≡◌}
use multi_addon_rss.Base.Tests.{if◌then◌else◌, ◌>>=◌}

pub data Ensures {ℓ κ} {A : Type ℓ} (P : A → Type κ) : Option A → Type (ℓ ⊔ κ) where
  refused : Ensures P none
  meets : {a : A} → P a → Ensures P (some a)

module _ {ℓ κ} {A : Type ℓ} {P : A → Type κ} where
  pub Ensures-if :
      (b : Bool) {x y : Option A} → Ensures P x → Ensures P y → Ensures P (if b then x else y)
  Ensures-if true p q = p
  Ensures-if false p q = q

  pub Ensures-some : {a : A} → Ensures P (some a) → P a
  Ensures-some (meets p) = p

pub Ensures-mono {ℓ κ ι} :
    {A : Type ℓ} {P : A → Type κ} {Q : A → Type ι} {m : Option A}
    → Ensures P m
    → ((a : A) → P a → Q a)
    → Ensures Q m
Ensures-mono refused f = refused
Ensures-mono (meets p) f = meets (f _ p)

pub Ensures-bind {ℓ κ ι ν} :
    {A : Type ℓ} {B : Type κ} {P : A → Type ι} {Q : B → Type ν} (m : Option A) (f : A → Option B)
    → Ensures P m
    → ((a : A) → P a → Ensures Q (f a))
    → Ensures Q (m >>= f)
Ensures-bind none f p k = refused
Ensures-bind (some a) f (meets p) k = k a p

-- The same with nothing known of the first part.
pub Ensures-then {ℓ κ ν} :
    {A : Type ℓ} {B : Type κ} {Q : B → Type ν} (m : Option A) (f : A → Option B)
    → ((a : A) → m ≡ some a → Ensures Q (f a))
    → Ensures Q (m >>= f)
Ensures-then none f k = refused
Ensures-then (some a) f k = k a refl

pub Ensures-cases {ℓ κ ι ν} :
    {A : Type ℓ} {B : Type κ} {P : A → Type ι} {Q : B → Type ν} (m : Option A) (n : Option B)
    (f : A → Option B)
    → Ensures P m
    → Ensures Q n
    → ((a : A) → P a → Ensures Q (f a))
    → Ensures Q (elim m [ none ↦ n | some a ↦ f a ])
Ensures-cases none n f p q k = q
Ensures-cases (some a) n f (meets p) q k = k a p
