-- ===== src/Downloads.antt =====
-- The downloads of the server, in src/multiaddonmanager.cpp: `DownloadAddon` and
-- `OnAddonDownloaded`. Steam is a parameter.
pub mod Queue
mod Tests
use multi_addon_rss.Base.{
  Bool, Bytes, List, [], false, if◌then◌else◌, not, suc, true, ℕ, ◌&&◌, ◌++◌, ◌==◌, ◌||◌, ◌∷◌,
}

-- Whether there is a connection, an item is of the old kind (`k_EItemStateLegacyItem`) or installed,
-- and a download starts; and `V_StringToUint64` with 0 for what is no number.
pub record Steam : Type 0 where
  pub has_ugc : Bool
  pub is_legacy : ℕ → Bool
  pub is_installed : ℕ → Bool
  pub download_item : ℕ → Bool
  pub to_uint64 : Bytes → ℕ

-- `m_ImportantDownloads` and `m_DownloadQueue`, whose head is the first of the list.
pub record Downloads : Type 0 where
  pub important : List ℕ
  pub queue : List ℕ

unfoldable pub is_listed_id : ℕ → List ℕ → Bool
is_listed_id x [] = false
is_listed_id x (y ∷ ys) = y == x || is_listed_id x ys

-- `FindAndRemove`
unfoldable pub remove_id : ℕ → List ℕ → List ℕ
remove_id x [] = []
remove_id x (y ∷ ys) = let rest = remove_id x ys in if y == x then ys else y ∷ rest

abbrev pub is_none_left : List ℕ → Bool
is_none_left [] = true
is_none_left (x ∷ xs) = false

-- `RemoveAtHead`
abbrev pub behind_head : List ℕ → List ℕ
behind_head [] = []
behind_head (x ∷ xs) = xs

-- A download that was started.
unfoldable pub enqueue : Bool → ℕ → Downloads → Downloads
enqueue important id d = record {
  important =
      if important && not (is_listed_id id d.important)
      then d.important ++ id ∷ []
      else d.important;
  queue = d.queue ++ id ∷ [];
}

-- `DownloadAddon`
unfoldable pub download_addon : Steam → Downloads → Bytes → Bool → Bool → Bool × Downloads
download_addon s d addon important force =
    let id = s.to_uint64 addon in
    if not s.has_ugc
    then (false, d)
    else if id == 0
    then (false, d)
    else if is_listed_id id d.queue
    then (false, d)
    else if not force && s.is_installed id
    then (true, d)
    else if not (s.download_item id)
    then (false, d)
    else (true, enqueue important id d)

-- `OnAddonDownloaded`, and whether it reloads the map.
unfoldable pub on_addon_downloaded : Downloads → ℕ → Downloads × Bool
on_addon_downloaded d id =
    let important = remove_id id d.important in
    if not (is_listed_id id d.queue) then (d, false) else (
      record { important = important; queue = behind_head d.queue },
      is_listed_id id d.important && is_none_left important,
    )

-- Downloads that finish one after the other, and how often the map is reloaded.
unfoldable pub finish_downloads : List ℕ → Downloads → ℕ
finish_downloads [] d = 0
finish_downloads (id ∷ ids) d =
    let after = on_addon_downloaded d id in
    let more = finish_downloads ids after.0 in if after.1 then suc more else more
