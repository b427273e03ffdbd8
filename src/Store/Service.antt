-- ===== src/Store/Service.antt =====
-- The preference store as a service: what a caller sees of it, and that the setter with its files
-- behaves as the service.
use multi_addon_rss.Base.{
  Bool, Bytes, List, Option, [], false, if◌then◌else◌, not, some, true, ℕ, ◌<◌, ◌==◌, ◌∷◌, ◌≡◌, ◌⊎◌,
}
use multi_addon_rss.Clients.{Manager}
use multi_addon_rss.Prefs.Build.{build_rss_asset_preferences_json}
use multi_addon_rss.Prefs.Decimal.{ull_mod}
use multi_addon_rss.Prefs.Entries.Sound.{IsIdSet}
use multi_addon_rss.Prefs.IdSet.{member}
use multi_addon_rss.Store.{
  FileSystem, Setting, StoreFile, preferences_file, set_client_rss_assets_enabled,
}

-- What the store promises: who opted out, and whether it takes changes. The order of the ids and
-- the bytes of the file are left open.
pub record Service : Type 0 where
  pub opted_out : ℕ → Bool
  pub is_open : Bool

-- A request of an id for a preference, its result, and the service behind it. A change that cannot
-- be stored fails, changes nobody's preference, and closes the service.
pub data Serves (s : Service) (id : ℕ) (enabled : Bool) : Bool → Service → Type 0 where
  refuses : (id ≡ 0) ⊎ (s.is_open ≡ false) → Serves s id enabled false s
  confirms : 0 < id → s.is_open ≡ true → s.opted_out id ≡ not enabled → Serves s id enabled true s
  alters :
      0 < id
      → s.is_open ≡ true
      → s.opted_out id ≡ enabled
      → Serves s id enabled true
          (record s { opted_out = λ j. if id == j then not enabled else s.opted_out j })
  locks :
      0 < id
      → s.is_open ≡ true
      → s.opted_out id ≡ enabled
      → Serves s id enabled false (record s { is_open = false })

-- Requests one after the other, with their results.
pub data Session : Service → List (ℕ × Bool) → List Bool → Service → Type 0 where
  over : {s : Service} → Session s [] [] s
  serves :
      {s t u : Service} {id : ℕ} {enabled result : Bool} {requests : List (ℕ × Bool)}
      {results : List Bool}
      → Serves s id enabled result t
      → Session t requests results u
      → Session s ((id, enabled) ∷ requests) (result ∷ results) u

abbrev pub AllIds64 : List (ℕ × Bool) → Type 0
AllIds64 [] = Unit {0}
AllIds64 (r ∷ rs) = (r.0 < ull_mod) × AllIds64 rs

module _ {T W H : Type 0} (fs : FileSystem W H) where
  -- Calls of the setter one after the other.
  unfoldable pub set_all : List (ℕ × Bool) → Manager T → W → List Bool × Manager T × W
  set_all [] m w = ([], m, w)
  set_all (r ∷ rs) m w =
      let set = set_client_rss_assets_enabled fs m r.0 r.1 w in
      let rest = set_all rs set.manager set.files in (set.result ∷ rest.0, rest.1, rest.2)

module _ {T W H : Type 0} (fs : FileSystem W H) (contents : StoreFile → W → Option Bytes) where
  -- The manager holds the preferences of the service as a set of valid ids, the latch is whether it
  -- is open, and the preference file holds what the writer prints of the set.
  abbrev pub Represents : Service → Manager T → W → Type 0
  Represents s m w =
      IsIdSet m.rss_asset_opt_out_clients
      × ((j : ℕ) → member j m.rss_asset_opt_out_clients ≡ s.opted_out j)
      × (m.rss_asset_preferences_writable ≡ s.is_open)
      × (contents preferences_file w
          ≡ some (build_rss_asset_preferences_json m.rss_asset_opt_out_clients))

  -- The setter serves the request, and represents the service behind it.
  abbrev pub Refines : Service → ℕ → Bool → Setting T W → Type 0
  Refines s id enabled r =
      (t : Service) × Serves s id enabled r.result t × Represents t r.manager r.files
