-- ===== src/Addons/Lists.antt =====
-- Laws of `contains` and of the removals.
use multi_addon_rss.Addons.{contains, find_and_remove, remove_each}
use multi_addon_rss.Base.{
  Bytes, List, [], arith, equal, equal_iff, equal_refl, false, if◌then◌else◌, not, refl, ◌&&◌, ◌++◌,
  ◌||◌, ◌∷◌, ◌≡◌,
}

pub contains-append :
    (a : Bytes) (xs ys : List Bytes) → contains a (xs ++ ys) ≡ (contains a xs || contains a ys)
unfolding contains
contains-append a [] ys = refl
contains-append a (x ∷ xs) ys = ground (arith, contains-append a xs ys)

-- No id occurs twice.
abbrev pub Distinct : List Bytes → Type 0
Distinct [] = Unit {0}
Distinct (x ∷ xs) = (contains x xs ≡ false) × Distinct xs

pub Distinct-snoc :
    (a : Bytes) (xs : List Bytes) → Distinct xs → contains a xs ≡ false → Distinct (xs ++ a ∷ [])
unfolding contains
Distinct-snoc a [] d h = (refl, tt)
Distinct-snoc a (x ∷ xs) d h =
    ground
      (arith, contains-append x xs (a ∷ []), Distinct-snoc a xs d.1, equal_iff x a, equal_iff a x)

-- In a list of distinct ids a removal takes out the id altogether.
pub contains-find_and_remove :
    (a b : Bytes) (xs : List Bytes)
    → Distinct xs
    → contains b (find_and_remove a xs) ≡ (if equal a b then false else contains b xs)
unfolding contains find_and_remove
contains-find_and_remove a b [] d = ground arith
contains-find_and_remove a b (x ∷ xs) d =
    ground (arith, contains-find_and_remove a b xs d.1, equal_iff x a, equal_iff x b, equal_iff a b)

pub find_and_remove-Distinct :
    (a : Bytes) (xs : List Bytes) → Distinct xs → Distinct (find_and_remove a xs)
unfolding find_and_remove
find_and_remove-Distinct a [] d = tt
find_and_remove-Distinct a (x ∷ xs) d =
    ground (arith, find_and_remove-Distinct a xs d.1, contains-find_and_remove a x xs d.1)

pub remove_each-Distinct : (ds xs : List Bytes) → Distinct xs → Distinct (remove_each ds xs)
unfolding remove_each
remove_each-Distinct [] xs d = d
remove_each-Distinct (a ∷ ds) xs d =
    remove_each-Distinct ds (find_and_remove a xs) (find_and_remove-Distinct a xs d)

-- What is left is what has not been downloaded.
pub contains-remove_each :
    (b : Bytes) (ds xs : List Bytes)
    → Distinct xs
    → contains b (remove_each ds xs) ≡ (contains b xs && not (contains b ds))
unfolding remove_each contains
contains-remove_each b [] xs d = ground arith
contains-remove_each b (a ∷ ds) xs d = ground (
  arith,
  contains-remove_each b ds (find_and_remove a xs) (find_and_remove-Distinct a xs d),
  contains-find_and_remove a b xs d,
)

pub find_and_remove-snoc :
    (a : Bytes) (xs : List Bytes) → contains a xs ≡ false → find_and_remove a (xs ++ a ∷ []) ≡ xs
unfolding find_and_remove contains
find_and_remove-snoc a [] h = ground (arith, equal_refl a)
find_and_remove-snoc a (x ∷ xs) h = ground (arith, find_and_remove-snoc a xs)
