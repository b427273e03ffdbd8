-- ===== src/Scanner/Ends.antt =====
-- What is said of a search on a fuel: that it ends, and with what.
use multi_addon_rss.Base.{Bool, Option, false, if◌then◌else◌, none, refl, some, true, ℕ, ◌≡◌}
use multi_addon_rss.Scanner.{if_found, or_else}

-- A search that ends: `P` holds of the address that it finds, and `N` where it finds none.
pub data EndsWith (P : ℕ → Type 0) (N : Type 0) : Option (Option ℕ) → Type 0 where
  misses : N → EndsWith P N (some none)
  finds : {v : ℕ} → P v → EndsWith P N (some (some v))

pub EndsWith-if_found {ℓ} :
    {A : Type ℓ} {P : ℕ → Type 0} {N : Type 0} (m : Option A) (f : A → Option (Option ℕ))
    → (m ≡ none → N)
    → ((a : A) → m ≡ some a → EndsWith P N (f a))
    → EndsWith P N (if_found m f)
EndsWith-if_found none f n k = misses (n refl)
EndsWith-if_found (some a) f n k = k a refl

pub EndsWith-or_else :
    {P : ℕ → Type 0} {M N : Type 0} (r rest : Option (Option ℕ))
    → EndsWith P M r
    → EndsWith P N rest
    → EndsWith P (M × N) (or_else r rest)
EndsWith-or_else _ _ (misses m) (misses n) = misses (m, n)
EndsWith-or_else _ _ (misses m) (finds p) = finds p
EndsWith-or_else _ rest (finds p) k = finds p

pub EndsWith-mono :
    {P Q : ℕ → Type 0} {M N : Type 0} (r : Option (Option ℕ))
    → EndsWith P M r
    → ((v : ℕ) → P v → Q v)
    → (M → N)
    → EndsWith Q N r
EndsWith-mono _ (misses m) f g = misses (g m)
EndsWith-mono _ (finds p) f g = finds (f _ p)

pub EndsWith-if :
    {P : ℕ → Type 0} {N : Type 0} (b : Bool) (x y : Option (Option ℕ))
    → (b ≡ true → EndsWith P N x)
    → (b ≡ false → EndsWith P N y)
    → EndsWith P N (if b then x else y)
EndsWith-if true x y p q = p refl
EndsWith-if false x y p q = q refl
