-- ===== src/Downloads/Tests.antt =====
-- A queue of two downloads.
use multi_addon_rss.Base.{[], arith, false, refl, true, ◌∷◌, ◌≡◌}
use multi_addon_rss.Downloads.{
  Downloads, Steam, finish_downloads, is_listed_id, on_addon_downloaded,
}
use multi_addon_rss.Downloads.Queue.{IsQueued, finish_once}

abbrev two_downloads : Downloads
two_downloads = record { important = 12 ∷ []; queue = 11 ∷ 12 ∷ [] }

two_downloads-IsQueued : IsQueued two_downloads
unfolding is_listed_id
two_downloads-IsQueued = ((refl, (refl, tt)), (refl, tt), λ x h. ground arith)

abbrev steam : Steam
steam = record {
  has_ugc = true;
  is_legacy = λ id. false;
  is_installed = λ id. false;
  download_item = λ id. true;
  to_uint64 = λ s. 13;
}

finish_once_example : finish_downloads (11 ∷ 12 ∷ []) two_downloads ≡ 1
finish_once_example = finish_once two_downloads two_downloads-IsQueued

-- The item 12 finishes first: the queue keeps it, and loses the item 11.
out_of_order : (on_addon_downloaded two_downloads 12).0.queue ≡ 12 ∷ []
unfolding on_addon_downloaded is_listed_id
out_of_order = refl
