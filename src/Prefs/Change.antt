-- ===== src/Prefs/Change.antt =====
-- `ApplyRssPreferenceChange`. The callbacks read the changed set and act on a world `W`: the files
-- and the caches.
pub mod Outcomes
use multi_addon_rss.Base.{Bool, bool_eq, false, if◌then◌else◌, not, true, ℕ, ◌==◌}
use multi_addon_rss.Prefs.IdSet.{IdSet, erase, insert, member}

-- What a call leaves behind: its result, the latch, the members, and the world.
pub record Change (W : Type 0) : Type 0 where
  pub result : Bool
  pub latch : Bool
  pub members : IdSet
  pub world : W

-- The membership change itself.
unfoldable pub set_member : ℕ → Bool → IdSet → IdSet
set_member id enabled members = if enabled then erase id members else insert id members

unfoldable pub persist_change :
    {W : Type 0} → (IdSet → W → Bool × W) → (W → W) → IdSet → ℕ → Bool → Bool → W → Change W
persist_change persist on_persisted members id was_enabled enabled w =
    let changed = set_member id enabled members in
    let (saved, w') = persist changed w in
    if saved
    then record { result = true; latch = true; members = changed; world = on_persisted w' }
    else record {
      result = false;
      latch = false;
      members = if was_enabled then erase id changed else insert id changed;
      world = w';
    }

-- An early return.
abbrev pub unchanged : {W : Type 0} → Bool → Bool → IdSet → W → Change W
unchanged r latch members w = record { result = r; latch = latch; members = members; world = w }

-- The checks, in their order, and then the change.
unfoldable pub apply_rss_preference_change :
    {W : Type 0} → (IdSet → W → Bool × W) → (W → W) → Bool → IdSet → ℕ → Bool → W → Change W
unfolding persist_change set_member
apply_rss_preference_change persist on_persisted latch members id enabled w =
    let was_enabled = not (member id members) in
    if id == 0
    then unchanged false latch members w
    else if not latch
    then unchanged false latch members w
    else if bool_eq was_enabled enabled
    then unchanged true latch members w
    else persist_change persist on_persisted members id was_enabled enabled w
