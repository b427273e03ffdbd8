-- ===== src/Prefs/IdSet.antt =====
-- `std::set<RssSteamId>` as src/rss_asset_preferences.h and src/multiaddonmanager.cpp use it:
-- the ascending list of its elements, which is the order of iteration.
use multi_addon_rss.Base.{
  Bool, List, [], arith, false, if◌then◌else◌, ltb, refl, subst, sym, true, ℕ, ◌++◌, ◌<◌, ◌==◌,
  ◌||◌, ◌∷◌, ◌≡◌, ◌≤◌,
}

abbrev pub IdSet : Type 0
IdSet = List ℕ

-- `find(x) != end()`
unfoldable pub member : ℕ → IdSet → Bool
member x [] = false
member x (y ∷ ys) = y == x || member x ys

-- `insert(x)`
unfoldable pub insert : ℕ → IdSet → IdSet
insert x [] = x ∷ []
insert x (y ∷ ys) = if ltb x y then x ∷ y ∷ ys else if y == x then y ∷ ys else y ∷ insert x ys

-- `erase(x)`
unfoldable pub erase : ℕ → IdSet → IdSet
erase x [] = []
erase x (y ∷ ys) = if y == x then ys else y ∷ erase x ys

-- Strictly ascending, and all above `lo`.
abbrev pub Ascends : ℕ → IdSet → Type 0
Ascends lo [] = Unit {0}
Ascends lo (x ∷ xs) = (lo < x) × Ascends x xs

abbrev pub Below : ℕ → IdSet → Type 0
Below hi [] = Unit {0}
Below hi (x ∷ xs) = (x < hi) × Below hi xs

pub Ascends-mono : (a b : ℕ) (xs : IdSet) → a ≤ b → Ascends b xs → Ascends a xs
Ascends-mono a b [] h p = tt
Ascends-mono a b (x ∷ xs) h p = (omega arith, p.1)

pub member_above : (x lo : ℕ) (xs : IdSet) → Ascends lo xs → x ≤ lo → member x xs ≡ false
unfolding member
member_above x lo [] p h = refl
member_above x lo (y ∷ ys) p h = ground (arith, member_above x y ys p.1)

pub insert-Ascends : (x lo : ℕ) (xs : IdSet) → Ascends lo xs → lo < x → Ascends lo (insert x xs)
unfolding insert
insert-Ascends x lo [] p h = ground arith
insert-Ascends x lo (y ∷ ys) p h = ground (arith, insert-Ascends x y ys p.1)

pub erase-Ascends : (x lo : ℕ) (xs : IdSet) → Ascends lo xs → Ascends lo (erase x xs)
unfolding erase
erase-Ascends x lo [] p = tt
erase-Ascends x lo (y ∷ ys) p = ground (arith, erase-Ascends x y ys p.1, Ascends-mono lo y ys)

pub insert-Below : (x hi : ℕ) (xs : IdSet) → Below hi xs → x < hi → Below hi (insert x xs)
unfolding insert
insert-Below x hi [] p h = ground arith
insert-Below x hi (y ∷ ys) p h = ground (arith, insert-Below x hi ys p.1)

pub erase-Below : (x hi : ℕ) (xs : IdSet) → Below hi xs → Below hi (erase x xs)
unfolding erase
erase-Below x hi [] p = tt
erase-Below x hi (y ∷ ys) p = ground (arith, erase-Below x hi ys p.1)

pub member-insert :
    (x y : ℕ) (xs : IdSet) → member y (insert x xs) ≡ (if x == y then true else member y xs)
unfolding member insert
member-insert x y [] = ground arith
member-insert x y (z ∷ zs) = ground (arith, member-insert x y zs)

pub member-erase :
    (x y lo : ℕ) (xs : IdSet)
    → Ascends lo xs
    → member y (erase x xs) ≡ (if x == y then false else member y xs)
unfolding member erase
member-erase x y lo [] p = ground arith
member-erase x y lo (z ∷ zs) p = ground (arith, member-erase x y z zs p.1, member_above x z zs p.1)

-- Taking back an insertion, or an erasure, restores the set.
pub erase-insert : (x : ℕ) (xs : IdSet) → member x xs ≡ false → erase x (insert x xs) ≡ xs
unfolding member insert erase
erase-insert x [] h = ground arith
erase-insert x (y ∷ ys) h = ground (arith, erase-insert x ys)

pub insert-erase :
    (x lo : ℕ) (xs : IdSet) → Ascends lo xs → member x xs ≡ true → insert x (erase x xs) ≡ xs
unfolding member insert erase
insert-erase x lo [] p h = cc
insert-erase x lo (y ∷ []) p h = ground arith
insert-erase x lo (y ∷ z ∷ zs) p h =
    ground (arith, insert-erase x y (z ∷ zs) p.1, member_above x y (z ∷ zs) p.1)

-- Elements that come in ascending order are appended.

pub insert_last : (x : ℕ) (xs : IdSet) → Below x xs → insert x xs ≡ xs ++ x ∷ []
unfolding insert
insert_last x [] p = refl
insert_last x (y ∷ ys) p = ground (arith, insert_last x ys p.1)

pub member-Below : (x : ℕ) (xs : IdSet) → Below x xs → member x xs ≡ false
unfolding member
member-Below x [] p = refl
member-Below x (y ∷ ys) p = ground (arith, member-Below x ys p.1)

-- A set is determined by its members.
pub IdSet_ext :
    (lo : ℕ) (xs ys : IdSet)
    → Ascends lo xs
    → Ascends lo ys
    → ((x : ℕ) → member x xs ≡ member x ys)
    → xs ≡ ys
unfolding member
IdSet_ext lo [] [] p q h = refl
IdSet_ext lo [] (y ∷ ys) p q h = absurd (ground (arith, h y))
IdSet_ext lo (x ∷ xs) [] p q h = absurd (ground (arith, h x))
IdSet_ext lo (x ∷ xs) (y ∷ ys) p q h =
    let same : x ≡ y = ground (arith, h x, h y, member_above x y ys q.1, member_above y x xs p.1) in
    let rest =
      IdSet_ext x xs ys p.1 (subst (λ z. Ascends z ys) (sym same) q.1)
        λ z. ground (arith, h z, same, member_above z x xs p.1, member_above z y ys q.1) in
    cc
