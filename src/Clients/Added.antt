-- ===== src/Clients/Added.antt =====
-- What the lambda `AddClientAddon` of `GetClientAddons` makes of a list.
use multi_addon_rss.Addons.{contains}
use multi_addon_rss.Addons.Lists.{Distinct, Distinct-snoc, contains-append}
use multi_addon_rss.Base.{
  Bool, Bool-cases, Bytes, List, [], ap, append-nil, arith, equal, equal_iff, false, if◌then◌else◌,
  inl, inr, map, not, refl, true, ◌&&◌, ◌++◌, ◌||◌, ◌∙◌, ◌∷◌, ◌≡◌,
}
use multi_addon_rss.Clients.{add_all_listed, add_listed, is_skipped}

add_listed-Distinct :
    (skip : Bool) (map : Bytes) (xs : List Bytes) (a : Bytes)
    → Distinct xs
    → Distinct (add_listed skip map xs a)
unfolding add_listed
add_listed-Distinct skip map xs a d = ground (arith, Distinct-snoc a xs d)

pub add_all_listed-Distinct :
    (skip : Bool) (map : Bytes) (xs more : List Bytes)
    → Distinct xs
    → Distinct (add_all_listed skip map xs more)
unfolding add_all_listed
add_all_listed-Distinct skip map xs [] d = d
add_all_listed-Distinct skip map xs (a ∷ more) d =
    add_all_listed-Distinct skip map (add_listed skip map xs a) more
      (add_listed-Distinct skip map xs a d)

contains_single : (b a : Bytes) → contains b (a ∷ []) ≡ equal a b
unfolding contains
contains_single b a = ground arith

contains-add_listed :
    (skip : Bool) (map : Bytes) (xs : List Bytes) (a b : Bytes)
    → contains b (add_listed skip map xs a)
      ≡ (contains b xs || (equal a b && not (is_skipped skip map b)))
unfolding add_listed
contains-add_listed skip map xs a b =
    ground (arith, contains-append b xs (a ∷ []), contains_single b a, equal_iff a b)

pub contains-add_all_listed :
    (skip : Bool) (map : Bytes) (xs more : List Bytes) (b : Bytes)
    → contains b (add_all_listed skip map xs more)
      ≡ (contains b xs || (contains b more && not (is_skipped skip map b)))
unfolding add_all_listed contains
contains-add_all_listed skip map xs [] b = ground arith
contains-add_all_listed skip map xs (a ∷ more) b = ground (
  arith,
  contains-add_all_listed skip map (add_listed skip map xs a) more b,
  contains-add_listed skip map xs a b,
)

-- The head of the list stays where it is.
add_listed-cons :
    (skip : Bool) (map h : Bytes) (t : List Bytes) (a : Bytes)
    → (r : List Bytes) × (add_listed skip map (h ∷ t) a ≡ h ∷ r)
unfolding add_listed
add_listed-cons skip map h t a = elim (Bool-cases (is_skipped skip map a)) [
  | inl e ↦ (t, rw e)
  | inr e ↦ elim (Bool-cases (contains a (h ∷ t))) [
    | inl k ↦ (t, rw (e, k))
    | inr k ↦ (t ++ a ∷ [], rw (e, k))
  ]
]

pub add_all_listed-cons :
    (skip : Bool) (map h : Bytes) (t more : List Bytes)
    → (r : List Bytes) × (add_all_listed skip map (h ∷ t) more ≡ h ∷ r)
unfolding add_all_listed
add_all_listed-cons skip map h t [] = (t, refl)
add_all_listed-cons skip map h t (a ∷ more) =
    let (r, e) = add_listed-cons skip map h t a in
    let (r', e') = add_all_listed-cons skip map h r more in
    (r', ap (λ l. add_all_listed skip map l more) e ∙ e')

-- The ids of a full list that are not skipped.
unfoldable pub drop_skipped : Bytes → List Bytes → List Bytes
drop_skipped map [] = []
drop_skipped map (a ∷ xs) =
    if is_skipped true map a then drop_skipped map xs else a ∷ drop_skipped map xs

drop_skipped-append :
    (map : Bytes) (xs ys : List Bytes)
    → drop_skipped map (xs ++ ys) ≡ drop_skipped map xs ++ drop_skipped map ys
unfolding drop_skipped
drop_skipped-append map [] ys = refl
drop_skipped-append map (a ∷ xs) ys = ground (arith, drop_skipped-append map xs ys)

pub contains-drop_skipped :
    (map b : Bytes) (xs : List Bytes)
    → contains b (drop_skipped map xs) ≡ (contains b xs && not (is_skipped true map b))
unfolding drop_skipped contains
contains-drop_skipped map b [] = refl
contains-drop_skipped map b (a ∷ xs) = ground (arith, contains-drop_skipped map b xs, equal_iff a b)

is_skipped-off : (map a : Bytes) → is_skipped false map a ≡ false
unfolding is_skipped
is_skipped-off map a = refl

drop_skipped-single :
    (map a : Bytes) → drop_skipped map (a ∷ []) ≡ (if is_skipped true map a then [] else a ∷ [])
unfolding drop_skipped
drop_skipped-single map a = refl

add_listed-drop_skipped :
    (map : Bytes) (xs : List Bytes) (a : Bytes)
    → add_listed true map (drop_skipped map xs) a ≡ drop_skipped map (add_listed false map xs a)
unfolding add_listed
add_listed-drop_skipped map xs a = ground (
  arith,
  is_skipped-off map a,
  contains-drop_skipped map a xs,
  drop_skipped-append map xs (a ∷ []),
  drop_skipped-single map a,
  append-nil (drop_skipped map xs),
)

pub add_all_listed-drop_skipped :
    (map : Bytes) (xs more : List Bytes)
    → add_all_listed true map (drop_skipped map xs) more
      ≡ drop_skipped map (add_all_listed false map xs more)
unfolding add_all_listed
add_all_listed-drop_skipped map xs [] = refl
add_all_listed-drop_skipped map xs (a ∷ more) =
    rw (add_listed-drop_skipped map xs a)
      (add_all_listed-drop_skipped map (add_listed false map xs a) more)
