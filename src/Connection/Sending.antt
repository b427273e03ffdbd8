-- ===== src/Connection/Sending.antt =====
-- The lists that `Hook_ReplyConnection` filters.
use multi_addon_rss.Addons.{contains, is_nil, is_rss_asset_addon}
use multi_addon_rss.Base.{
  Bytes, List, [], arith, equal, equal_iff, false, map, refl, true, ℕ, ◌&&◌, ◌||◌, ◌∷◌, ◌≡◌,
}
use multi_addon_rss.Clients.{is_skipped}
use multi_addon_rss.Clients.Added.{contains-drop_skipped, drop_skipped}
use multi_addon_rss.Connection.{keep_known, recombine}
use multi_addon_rss.Plugin.Requests.{downloaded}
use multi_addon_rss.Prefs.IdSet.{IdSet, insert, member, member-insert}

pub contains-keep_known :
    (downloaded : List Bytes) (pending : Bytes) (xs : List Bytes) (a : Bytes)
    → contains a (keep_known downloaded pending xs)
      ≡ (contains a xs && (contains a downloaded || equal a pending))
unfolding keep_known contains
contains-keep_known downloaded pending [] a = refl
contains-keep_known downloaded pending (x ∷ xs) a =
    ground (arith, contains-keep_known downloaded pending xs a, equal_iff x a)

pub contains-recombine :
    (staged full : List Bytes) (a : Bytes)
    → contains a (recombine staged full)
      ≡ (contains a full && (is_rss_asset_addon a || contains a staged))
unfolding recombine contains
contains-recombine staged [] a = refl
contains-recombine staged (x ∷ full) a =
    ground (arith, contains-recombine staged full a, equal_iff x a)

pub contains-drop_skipped_full :
    (map a : Bytes) (full : List Bytes)
    → contains a (drop_skipped map full) ≡ true
    → contains a full ≡ true
contains-drop_skipped_full map a full h = ground (arith, contains-drop_skipped map a full)

pub nil_of_is_nil : (xs : List Bytes) → is_nil xs ≡ true → xs ≡ []
unfolding is_nil
nil_of_is_nil [] h = refl
nil_of_is_nil (x ∷ xs) h = cc

pub member_inserted : (id : ℕ) (ids : IdSet) → member id (insert id ids) ≡ true
member_inserted id ids = ground (arith, member-insert id id ids)

pub contains_nil : (a : Bytes) → contains a [] ≡ false
unfolding contains
contains_nil a = refl

rss_of_skipped : (map a : Bytes) → is_skipped true map a ≡ true → is_rss_asset_addon a ≡ true
unfolding is_skipped
rss_of_skipped map a h = ground arith

-- Where nothing is left of a full list, all of it is RSS assets.
pub all_skipped :
    (map a : Bytes) (full : List Bytes)
    → drop_skipped map full ≡ []
    → contains a full ≡ true
    → is_rss_asset_addon a ≡ true
all_skipped map a full e h =
    ground (arith, contains-drop_skipped map a full, contains_nil a, rss_of_skipped map a)
