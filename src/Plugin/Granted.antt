-- ===== src/Plugin/Granted.antt =====
-- Requests to change the lists of addons, and what grants them.
use multi_addon_rss.Addons.{contains, find_and_remove}
use multi_addon_rss.Addons.Lists.{
  Distinct, Distinct-snoc, contains-append, contains-find_and_remove, find_and_remove-Distinct,
}
use multi_addon_rss.Base.{
  Bool, Bool-cases, Bytes, List, Option, [], arith, equal, equal_iff, false, if◌then◌else◌, inl,
  inr, none, not, refl, some, ◌&&◌, ◌++◌, ◌||◌, ◌∙◌, ◌∷◌, ◌≡◌,
}
use multi_addon_rss.Plugin.Commands.{
  Command, mm_add_addon, mm_add_client_addon, mm_download_addon, mm_remove_addon,
  mm_remove_client_addon,
}

-- A request to change a list.
pub data Request : Type 0 where
  asks_nothing : Request
  asks_for drops : Bytes → Request

-- The first argument behind the name, if there is one.
abbrev pub asked : (Bytes → Request) → List Bytes → Request
asked request [] = asks_nothing
asked request (name ∷ []) = asks_nothing
asked request (name ∷ addon ∷ more) = request addon

-- What a command asks of the extra addons, and of the list for all clients.
abbrev pub extra_request : Command → List Bytes → Request
extra_request mm_add_addon args = asked asks_for args
extra_request mm_remove_addon args = asked drops args
extra_request mm_add_client_addon args = asks_nothing
extra_request mm_remove_client_addon args = asks_nothing
extra_request mm_download_addon args = asks_nothing

abbrev pub global_request : Command → List Bytes → Request
global_request mm_add_client_addon args = asked asks_for args
global_request mm_remove_client_addon args = asked drops args
global_request mm_add_addon args = asks_nothing
global_request mm_remove_addon args = asks_nothing
global_request mm_download_addon args = asks_nothing

-- The addon that a command asks to download.
abbrev pub only_argument : List Bytes → Option Bytes
only_argument [] = none
only_argument (name ∷ []) = none
only_argument (name ∷ addon ∷ []) = some addon
only_argument (name ∷ addon ∷ more ∷ others) = none

abbrev pub download_request : Command → List Bytes → Option Bytes
download_request mm_download_addon args = only_argument args
download_request mm_add_addon args = none
download_request mm_remove_addon args = none
download_request mm_add_client_addon args = none
download_request mm_remove_client_addon args = none

-- Whether an addon stands in a list behind a request, from whether it did before.
abbrev pub granted : Request → Bytes → Bool → Bool
granted asks_nothing x before = before
granted (asks_for a) x before = before || equal a x
granted (drops a) x before = before && not (equal a x)

-- The list is what the request makes of it, again without repeats.
abbrev pub IsGranted : Request → List Bytes → List Bytes → Type 0
IsGranted request before after =
    Distinct after × ((x : Bytes) → contains x after ≡ granted request x (contains x before))

pub added-IsGranted :
    (a : Bytes) (xs : List Bytes)
    → Distinct xs
    → IsGranted (asks_for a) xs (if contains a xs then xs else xs ++ a ∷ [])
added-IsGranted a xs d = elim (Bool-cases (contains a xs)) [
  | inl e ↦ rw e (d, λ x. ground (arith, equal_iff a x))
  | inr e ↦
      rw e (
        Distinct-snoc a xs d e,
        λ x. contains-append x xs (a ∷ []) ∙ unfold contains in ground arith,
      )
]

pub removed-IsGranted :
    (a : Bytes) (xs : List Bytes) → Distinct xs → IsGranted (drops a) xs (find_and_remove a xs)
removed-IsGranted a xs d =
    (find_and_remove-Distinct a xs d, λ x. ground (arith, contains-find_and_remove a x xs d))

pub removed_absent :
    (a : Bytes) (xs : List Bytes) → contains a xs ≡ false → find_and_remove a xs ≡ xs
unfolding contains find_and_remove
removed_absent a [] h = refl
removed_absent a (x ∷ xs) h = ground (arith, removed_absent a xs)
