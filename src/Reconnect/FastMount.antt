-- ===== src/Reconnect/FastMount.antt =====
-- The fast mount of `CheckClientAddons`.
use multi_addon_rss.Addons.{is_nil}
use multi_addon_rss.Base.{Bytes, List, [], arith, false, map, not, refl, ℕ, ◌&&◌, ◌∷◌, ◌≡◌}
use multi_addon_rss.Clients.{ClientAddonInfo, Floats, Manager}
use multi_addon_rss.Connection.{Settings}
use multi_addon_rss.Reconnect.{mount_skipped, settle_pending, skipped_rss_assets}

skipped-nil : (map : Bytes) → skipped_rss_assets map [] ≡ []
unfolding skipped_rss_assets
skipped-nil map = refl

nothing_skipped :
    (map : Bytes) (rest : List Bytes)
    → (not (is_nil (skipped_rss_assets map rest)) && is_nil rest) ≡ false
unfolding is_nil skipped_rss_assets
nothing_skipped map [] = refl
nothing_skipped map (a ∷ rest) = ground arith

module _ {T : Type 0} (fl : Floats T) (set : Settings T) where
  -- The fast mount of `CheckClientAddons` is never taken: it asks that no addon be left where a
  -- skipped one is, which is itself left, and the code goes on as for any other client.
  pub mount_skipped-settle_pending :
      (clock : ℕ → T) (m : Manager T) (id : ℕ) (info : ClientAddonInfo T)
      → mount_skipped fl set clock m id info ≡ settle_pending fl set clock m id info
  unfolding mount_skipped
  mount_skipped-settle_pending clock m id info = rw nothing_skipped
