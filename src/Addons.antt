-- ===== src/Addons.antt =====
-- Lists of addon ids, as src/multiaddonmanager.cpp handles them. A `CUtlVector<std::string>` is the
-- list of its strings, and a string is the list of its bytes.
pub mod Lists
pub mod Split
mod Tests
use multi_addon_rss.Base.{
  Bool, Bytes, List, [], codes, equal, false, if◌then◌else◌, true, ◌++◌, ◌==◌, ◌||◌, ◌∷◌,
}

unfoldable pub is_empty : Bytes → Bool
is_empty [] = true
is_empty (c ∷ s) = false

unfoldable pub is_nil : List Bytes → Bool
is_nil [] = true
is_nil (a ∷ xs) = false

-- `Find(a) != -1`
unfoldable pub contains : Bytes → List Bytes → Bool
contains a [] = false
contains a (x ∷ xs) = equal x a || contains a xs

-- `FindAndRemove(a)`: the first occurrence goes, and the order stays.
unfoldable pub find_and_remove : Bytes → List Bytes → List Bytes
find_and_remove a [] = []
find_and_remove a (x ∷ xs) = if equal x a then xs else x ∷ find_and_remove a xs

-- `FOR_EACH_VEC(downloaded, i) addons.FindAndRemove(downloaded[i]);`
unfoldable pub remove_each : List Bytes → List Bytes → List Bytes
remove_each [] addons = addons
remove_each (d ∷ ds) addons = remove_each ds (find_and_remove d addons)

-- `g_RssAssetAddonIds`
abbrev pub rss_asset_addon_ids : List Bytes
rss_asset_addon_ids =
    codes "3782730321"
    ∷ codes "3782731016"
    ∷ codes "3782731693"
    ∷ codes "3782732358"
    ∷ codes "3777226686"
    ∷ codes "3782764572"
    ∷ codes "3782764127"
    ∷ codes "3782764891"
    ∷ codes "3782765512"
    ∷ codes "3781515645"
    ∷ []

unfoldable pub is_rss_asset_addon : Bytes → Bool
is_rss_asset_addon a = if is_empty a then false else contains a rss_asset_addon_ids

-- `StringToVector`: the loop, on the piece read so far. Empty pieces are dropped.
abbrev pub flush : Bytes → List Bytes → List Bytes
flush [] rest = rest
flush (c ∷ s) rest = (c ∷ s) ∷ rest

unfoldable pub split_at_commas : Bytes → Bytes → List Bytes
split_at_commas piece [] = flush piece []
split_at_commas piece (c ∷ s) =
    let next = flush piece (split_at_commas [] s) in
    let more = split_at_commas (piece ++ c ∷ []) s in if c == 44 then next else more

unfoldable pub string_to_vector : Bytes → List Bytes
string_to_vector s = split_at_commas [] s

-- `VectorToString`
unfoldable pub vector_to_string : List Bytes → Bytes
vector_to_string [] = []
vector_to_string (a ∷ []) = a
vector_to_string (a ∷ b ∷ xs) = a ++ 44 ∷ vector_to_string (b ∷ xs)
