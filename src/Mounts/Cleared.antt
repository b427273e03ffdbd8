-- ===== src/Mounts/Cleared.antt =====
-- The loop that unmounts leaves nothing mounted.
use multi_addon_rss.Addons.{contains, is_empty}
use multi_addon_rss.Addons.Lists.{Distinct}
use multi_addon_rss.Base.{
  Bool, Bytes, List, Option, [], ap, arith, equal, equal_refl, false, get_elem?, if◌then◌else◌,
  length, none, refl, some, subst, suc, sym, true, zero, ℕ, ◌<◌, ◌∙◌, ◌∷◌, ◌≡◌,
}
use multi_addon_rss.Clients.{Manager}
use multi_addon_rss.Downloads.{Steam}
use multi_addon_rss.Mounts.{
  Engine, Server, build_addon_path, download, unmount_addon, unmount_all, unmount_at, unmount_below,
}

-- `FindAndFastRemove` takes an element out of a list without repeats, and leaves the others, in any
-- order.
abbrev pub FastRemoves : {W : Type 0} → Engine W → Type 0
FastRemoves eng =
    (a : Bytes) (xs : List Bytes)
    → contains a xs ≡ true
    → Distinct xs
    → (length xs ≡ suc (length (eng.fast_remove a xs)))
      × Distinct (eng.fast_remove a xs)
      × ((b : Bytes)
          → contains b (eng.fast_remove a xs) ≡ (if equal a b then false else contains b xs))

-- `RemoveSearchPath` succeeds exactly for a path that is held, and leaves the other paths.
abbrev pub RemovesHeld : {W : Type 0} → Engine W → (Bytes → W → Bool) → Type 0
RemovesHeld {W} eng held =
    (p : Bytes) (w : W)
    → ((eng.remove_search_path p w).0 ≡ held p w)
      × ((q : Bytes) → equal p q ≡ false → held q (eng.remove_search_path p w).1 ≡ held q w)

-- The paths of different addons of a list differ.
abbrev pub Separate : {W : Type 0} → Engine W → List Bytes → Type 0
Separate eng addons =
    (a b : Bytes)
    → contains a addons ≡ true
    → contains b addons ≡ true
    → equal a b ≡ false
    → equal (build_addon_path eng a false) (build_addon_path eng b false) ≡ false

-- The search paths hold each addon of a list without repeats, none of which is the empty string, by
-- the name that `UnmountAddon` gives its path, the one with `_dir`.
abbrev pub Held : {W : Type 0} → Engine W → (Bytes → W → Bool) → List Bytes → W → Type 0
Held eng held addons w =
    Distinct addons
    × ((a : Bytes)
        → contains a addons ≡ true
        → (is_empty a ≡ false) × (held (build_addon_path eng a false) w ≡ true))

contains-get_elem? :
    (xs : List Bytes) (i : ℕ) (a : Bytes) → get_elem? xs i ≡ some a → contains a xs ≡ true
unfolding contains
contains-get_elem? [] i a h = absurd (ground arith)
contains-get_elem? (x ∷ xs) zero a h = ground (arith, equal_refl a)
contains-get_elem? (x ∷ xs) (suc i) a h = ground (arith, contains-get_elem? xs i a h)

get_elem?_inside :
    (xs : List Bytes) (i : ℕ) → i < length xs → (a : Bytes) × (get_elem? xs i ≡ some a)
get_elem?_inside [] i h = absurd (omega (arith, h))
get_elem?_inside (x ∷ xs) zero h = (x, refl)
get_elem?_inside (x ∷ xs) (suc i) h = get_elem?_inside xs i (omega (arith, h))

nil_of_length : (xs : List Bytes) → length xs ≡ 0 → xs ≡ []
nil_of_length [] h = refl
nil_of_length (x ∷ xs) h = absurd (omega (arith, h))

module _ {T W : Type 0} (eng : Engine W) (steam : Steam) where
  -- One addon is unmounted: the others stay held.
  unmount_addon_removed :
      (held : Bytes → W → Bool) (a : Bytes) (s : Server T W)
      → FastRemoves eng
      → RemovesHeld eng held
      → Separate eng s.manager.mounted_addons
      → Held eng held s.manager.mounted_addons s.search_paths
      → contains a s.manager.mounted_addons ≡ true
      → let left = eng.fast_remove a s.manager.mounted_addons in
        let next = (unmount_addon eng steam a s).1 in
        (next.manager ≡ record s.manager { mounted_addons = left })
        × Held eng held left next.search_paths
        × Separate eng left
  unfolding unmount_addon
  unmount_addon_removed held a s f r sep h inside =
      let mounted = s.manager.mounted_addons in
      let (e, here) = h.1 a inside in
      let (done, others) = r (build_addon_path eng a false) s.search_paths in
      let (shorter, distinct, rest) = f a mounted inside h.0 in
      let was : (b : Bytes)
          → contains b (eng.fast_remove a mounted) ≡ true
          → (equal a b ≡ false) × (contains b mounted ≡ true) =
        λ b k. ground (arith, rest b) in
      rw (e, done ∙ here)
        (
          refl,
          (
            distinct,
            λ b k.
                let (ne, c) = was b k in
                (
                  (h.1 b c).0,
                  others (build_addon_path eng b false) (sep a b inside c ne) ∙ (h.1 b c).1,
                ),
          ),
          λ b c k l ne. sep b c (was b k).1 (was c l).1 ne,
        )

  unmount_below_all :
      (held : Bytes → W → Bool) (n : ℕ) (s : Server T W)
      → FastRemoves eng
      → RemovesHeld eng held
      → Separate eng s.manager.mounted_addons
      → Held eng held s.manager.mounted_addons s.search_paths
      → length s.manager.mounted_addons ≡ n
      → (unmount_below eng steam n s).manager ≡ record s.manager { mounted_addons = [] }
  unfolding unmount_below
  unmount_below_all held zero s f r sep h k =
      ap (λ (xs : List Bytes). record s.manager { mounted_addons = xs })
        (nil_of_length s.manager.mounted_addons k)
  unmount_below_all held (suc n) s f r sep h k =
      let mounted = s.manager.mounted_addons in
      let (a, e) = get_elem?_inside mounted n (omega (arith, k)) in
      let inside = contains-get_elem? mounted n a e in
      let next = (unmount_addon eng steam a s).1 in
      let (left, held_left, sep_left) = unmount_addon_removed held a s f r sep h inside in
      let at = ap (λ (m : Manager T). m.mounted_addons) left in
      let one = (f a mounted inside h.0).0 in
      ap (λ (o : Option Bytes). (unmount_below eng steam n (unmount_at eng steam o s)).manager) e
      ∙ (unmount_below_all held n next f r (subst (λ xs. Separate eng xs) (sym at) sep_left)
            (subst (λ xs. Held eng held xs next.search_paths) (sym at) held_left)
            (ap length at ∙ omega (arith, one, k))
          ∙ ap (λ (m : Manager T). record m { mounted_addons = [] }) left)

  pub unmount_all_empties :
      (held : Bytes → W → Bool) (s : Server T W)
      → FastRemoves eng
      → RemovesHeld eng held
      → Separate eng s.manager.mounted_addons
      → Held eng held s.manager.mounted_addons s.search_paths
      → (unmount_all eng steam s).manager ≡ record s.manager { mounted_addons = [] }
  unfolding unmount_all
  unmount_all_empties held s f r sep h =
      unmount_below_all held (length s.manager.mounted_addons) s f r sep h refl

  download_manager :
      (a : Bytes) (b c : Bool) (s : Server T W) → (download eng steam a b c s).manager ≡ s.manager
  unfolding download
  download_manager a b c s = refl

  unmount_at_commands :
      (o : Option Bytes) (s : Server T W) → (unmount_at eng steam o s).commands ≡ s.commands
  unfolding unmount_addon
  unmount_at_commands none s = refl
  unmount_at_commands (some a) s = ground arith

  pub unmount_commands :
      (n : ℕ) (s : Server T W) → (unmount_below eng steam n s).commands ≡ s.commands
  unfolding unmount_below
  unmount_commands zero s = refl
  unmount_commands (suc n) s =
      unmount_commands n _ ∙ unmount_at_commands (get_elem? s.manager.mounted_addons n) s
