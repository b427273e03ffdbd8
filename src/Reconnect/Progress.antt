-- ===== src/Reconnect/Progress.antt =====
-- Staged downloads make progress.
use multi_addon_rss.Addons.{is_empty}
use multi_addon_rss.Base.{Bytes, List, [], arith, false, length, refl, true, ℕ, ◌∷◌, ◌≡◌}
use multi_addon_rss.Clients.{Floats, Manager, is_client_rss_assets_enabled}
use multi_addon_rss.Connection.{Settings}
use multi_addon_rss.Reconnect.Round.{IsInTime, download_round, round_enabled, round_missing}
use multi_addon_rss.SignOn.{missing_addons}

-- A message to the client, and its reconnect.
pub record Visit (T : Type 0) : Type 0 where
  pub state : ℕ
  pub addons : Bytes
  pub now : T
  pub clock : ℕ → T

abbrev pub AllNonempty : List Bytes → Type 0
AllNonempty [] = Unit {0}
AllNonempty (a ∷ xs) = (is_empty a ≡ false) × AllNonempty xs

module _ {T : Type 0} (fl : Floats T) (set : Settings T) where
  pub download_rounds : List (Visit T) → Manager T → ℕ → Manager T
  download_rounds [] m id = m
  download_rounds (v ∷ vs) m id =
      download_rounds vs (download_round fl set v.state v.addons v.now v.clock m id) id

  abbrev pub AllInTime : List (Visit T) → Type 0
  AllInTime [] = Unit {0}
  AllInTime (v ∷ vs) = IsInTime fl set v.now v.clock × AllInTime vs

  rounds_missing :
      (vs : List (Visit T)) (m : Manager T) (id : ℕ) (missing : List Bytes)
      → missing_addons fl m id ≡ missing
      → length missing ≡ length vs
      → set.is_dedicated_server ≡ true
      → is_client_rss_assets_enabled m id ≡ true
      → AllNonempty missing
      → AllInTime vs
      → missing_addons fl (download_rounds vs m id) id ≡ []
  unfolding download_rounds
  rounds_missing [] m id [] e h dedicated enabled nonempty in_time = e
  rounds_missing [] m id (a ∷ rest) e h dedicated enabled nonempty in_time = absurd (omega arith)
  rounds_missing (v ∷ vs) m id [] e h dedicated enabled nonempty in_time = absurd (omega arith)
  rounds_missing (v ∷ vs) m id (a ∷ rest) e h dedicated enabled nonempty in_time =
      let m' = download_round fl set v.state v.addons v.now v.clock m id in
      rounds_missing vs m' id rest
        (round_missing fl set m id a rest enabled e v.state v.addons v.now v.clock dedicated
          nonempty.0 in_time.0)
        (omega arith) dedicated
        (round_enabled fl set m id a rest enabled e v.state v.addons v.now v.clock dedicated
          nonempty.0 in_time.0)
        nonempty.1 in_time.1

  -- On a dedicated server, a client that has the RSS assets enabled and reconnects in time after
  -- each order misses no addon after as many rounds, of a signon message and a reconnect, as addons
  -- were missing, none of which is the empty string.
  pub downloads_complete :
      (vs : List (Visit T)) (m : Manager T) (id : ℕ)
      → length (missing_addons fl m id) ≡ length vs
      → set.is_dedicated_server ≡ true
      → is_client_rss_assets_enabled m id ≡ true
      → AllNonempty (missing_addons fl m id)
      → AllInTime vs
      → missing_addons fl (download_rounds vs m id) id ≡ []
  downloads_complete vs m id = rounds_missing vs m id (missing_addons fl m id) refl
