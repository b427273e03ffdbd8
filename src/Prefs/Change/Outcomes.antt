-- ===== src/Prefs/Change/Outcomes.antt =====
-- What a preference change does on each of its paths.
use multi_addon_rss.Base.{
  Bool, Bool-cases, ap, arith, bool_eq, false, if◌then◌else◌, inl, inr, not, refl, subst, suc, sym,
  true, zero, ℕ, ◌<◌, ◌==◌, ◌∙◌, ◌≡◌, ◌⊎◌,
}
use multi_addon_rss.Prefs.Change.{Change, apply_rss_preference_change, set_member}
use multi_addon_rss.Prefs.Decimal.{ull_mod}
use multi_addon_rss.Prefs.IdSet.{
  Ascends, Below, IdSet, erase-Ascends, erase-Below, erase-insert, insert-Ascends, insert-Below,
  insert-erase, member, member-erase, member-insert,
}

pub member_of_change : (m enabled : Bool) → bool_eq (not m) enabled ≡ false → m ≡ enabled
member_of_change true true e = refl
member_of_change true false e = ground arith
member_of_change false true e = ground arith
member_of_change false false e = refl

false_is_not_true : ¬ (false ≡ true)
false_is_not_true e = ground arith

module _ {W : Type 0} (persist : IdSet → W → Bool × W) (on_persisted : W → W) where
  abbrev change : Bool → IdSet → ℕ → Bool → W → Change W
  change = apply_rss_preference_change persist on_persisted

  -- With the latch closed, or for the id 0, the change fails, nothing is written, and no callback
  -- runs.
  pub change_blocked :
      (latch : Bool) (members : IdSet) (id : ℕ) (enabled : Bool) (w : W)
      → (latch ≡ false) ⊎ (id ≡ 0)
      → change latch members id enabled w
        ≡ record { result = false; latch = latch; members = members; world = w }
  unfolding apply_rss_preference_change
  change_blocked latch members id enabled w (inl e) = ground arith
  change_blocked latch members id enabled w (inr e) = ground arith

  -- With the latch open, for an id that is not 0 and a preference other than the present one, a
  -- change that is persisted succeeds, keeps the latch open, sets the preference of the id and keeps
  -- all others, and runs the cache callback once, behind the write. The members are an ascending
  -- list of nonzero ids.
  pub change_persisted :
      (members : IdSet) (id : ℕ) (enabled : Bool) (w : W)
      → Ascends 0 members
      → 0 < id
      → member id members ≡ enabled
      → (persist (set_member id enabled members) w).0 ≡ true
      → let c = change true members id enabled w in
        (c.result ≡ true)
        × (c.latch ≡ true)
        × (c.world ≡ on_persisted (persist (set_member id enabled members) w).1)
        × ((x : ℕ) → member x c.members ≡ (if id == x then not enabled else member x members))
  unfolding apply_rss_preference_change
  change_persisted members id true w a p m saved =
      (ground arith, ground arith, ground arith, λ x. ground (arith, member-erase id x 0 members a))
  change_persisted members id false w a p m saved =
      (ground arith, ground arith, ground arith, λ x. ground (arith, member-insert id x members))

  -- With the latch open, for an id that is not 0 and a preference other than the present one, a
  -- change that cannot be persisted leaves the members as they were, closes the latch, and runs no
  -- cache callback. The members are an ascending list of nonzero ids.
  pub change_rolled_back :
      (members : IdSet) (id : ℕ) (enabled : Bool) (w : W)
      → Ascends 0 members
      → 0 < id
      → member id members ≡ enabled
      → (persist (set_member id enabled members) w).0 ≡ false
      → change true members id enabled w ≡ record {
        result = false;
        latch = false;
        members = members;
        world = (persist (set_member id enabled members) w).1;
      }
  unfolding apply_rss_preference_change
  change_rolled_back members id true w a p m fails = ground (arith, insert-erase id 0 members)
  change_rolled_back members id false w a p m fails = ground (arith, erase-insert id members)

  -- A preference that is the present one is confirmed, with nothing changed.
  pub change_confirmed :
      (members : IdSet) (id : ℕ) (enabled : Bool) (w : W)
      → 0 < id
      → bool_eq (not (member id members)) enabled ≡ true
      → change true members id enabled w
        ≡ record { result = true; latch = true; members = members; world = w }
  unfolding apply_rss_preference_change
  change_confirmed members id enabled w p e =
      let positive : (id == 0) ≡ false = ground arith in rw (positive, e) refl

  -- All that a change leaves which is persisted.
  pub change_saved :
      (members : IdSet) (id : ℕ) (enabled : Bool) (w : W)
      → 0 < id
      → bool_eq (not (member id members)) enabled ≡ false
      → (persist (set_member id enabled members) w).0 ≡ true
      → change true members id enabled w ≡ record {
        result = true;
        latch = true;
        members = set_member id enabled members;
        world = on_persisted (persist (set_member id enabled members) w).1;
      }
  unfolding apply_rss_preference_change
  change_saved members id enabled w p e saved =
      let positive : (id == 0) ≡ false = ground arith in rw (positive, e, saved) refl

  -- A change that fails leaves the members, and the world is as before or behind the write.
  pub change_failed :
      (latch : Bool) (members : IdSet) (id : ℕ) (enabled : Bool) (w : W)
      → Ascends 0 members
      → (change latch members id enabled w).result ≡ false
      → let c = change latch members id enabled w in
        (c.members ≡ members)
        × ((c.world ≡ w) ⊎ (c.world ≡ (persist (set_member id enabled members) w).1))
  unfolding apply_rss_preference_change
  change_failed false members id enabled w a h =
      let e = change_blocked false members id enabled w (inl refl) in
      (ap (λ (c : Change W). c.members) e, inl (ap (λ (c : Change W). c.world) e))
  change_failed true members zero enabled w a h = (refl, inl refl)
  change_failed true members (suc n) enabled w a h =
      elim (Bool-cases (bool_eq (not (member (suc n) members)) enabled)) [
        | inl e ↦ absurd (ground arith)
        | inr e ↦
            let m = member_of_change (member (suc n) members) enabled e in
            elim (Bool-cases (persist (set_member (suc n) enabled members) w).0) [
              | inl saved ↦
                  let p = (change_persisted members (suc n) enabled w a (omega arith) m saved).0 in
                  absurd (false_is_not_true (sym h ∙ p))
              | inr fails ↦
                  let r = change_rolled_back members (suc n) enabled w a (omega arith) m fails in
                  (ap (λ (c : Change W). c.members) r, inr (ap (λ (c : Change W). c.world) r))
            ]
      ]

  -- The members behind a change are those of before, or the changed ones.
  changed_members :
      (latch : Bool) (members : IdSet) (id : ℕ) (enabled : Bool) (w : W)
      → Ascends 0 members
      → 0 < id
      → ((change latch members id enabled w).members ≡ members)
        ⊎ ((change latch members id enabled w).members ≡ set_member id enabled members)
  unfolding apply_rss_preference_change
  changed_members false members id enabled w a p =
      inl (ap (λ (c : Change W). c.members) (change_blocked false members id enabled w (inl refl)))
  changed_members true members id enabled w a p =
      let positive : (id == 0) ≡ false = ground arith in
      elim (Bool-cases (bool_eq (not (member id members)) enabled)) [
        | inl e ↦ inl (rw (positive, e) refl)
        | inr e ↦ elim (Bool-cases (persist (set_member id enabled members) w).0) [
          | inl saved ↦ inr (rw (positive, e, saved) refl)
          | inr fails ↦ inl (
              ap (λ (c : Change W). c.members)
                (change_rolled_back members id enabled w a p
                  (member_of_change (member id members) enabled e) fails))
        ]
      ]

  pub set_member-valid :
      (members : IdSet) (id : ℕ) (enabled : Bool)
      → Ascends 0 members × Below ull_mod members
      → 0 < id
      → id < ull_mod
      → Ascends 0 (set_member id enabled members) × Below ull_mod (set_member id enabled members)
  unfolding set_member
  set_member-valid members id true v p b =
      (erase-Ascends id 0 members v.0, erase-Below id ull_mod members v.1)
  set_member-valid members id false v p b =
      (insert-Ascends id 0 members v.0 p, insert-Below id ull_mod members v.1 b)

  -- Each change keeps a set of valid ids valid.
  pub change-IsIdSet :
      (latch : Bool) (members : IdSet) (id : ℕ) (enabled : Bool) (w : W)
      → Ascends 0 members × Below ull_mod members
      → 0 < id
      → id < ull_mod
      → Ascends 0 (change latch members id enabled w).members
        × Below ull_mod (change latch members id enabled w).members
  change-IsIdSet latch members id enabled w v p b =
      elim (changed_members latch members id enabled w v.0 p) [
        | inl e ↦ subst (λ s. Ascends 0 s × Below ull_mod s) (sym e) v
        | inr e ↦
            subst (λ s. Ascends 0 s × Below ull_mod s) (sym e)
              (set_member-valid members id enabled v p b)
      ]
