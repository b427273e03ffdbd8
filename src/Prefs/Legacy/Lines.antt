-- ===== src/Prefs/Legacy/Lines.antt =====
-- The legacy collector against the text of each line.
use multi_addon_rss.Base.{
  Bool, Bytes, List, Option-cases, [], ap, arith, false, inl, inr, refl, some, subst, sym, true, ℕ,
  ◌||◌, ◌↔◌, ◌∙◌, ◌∷◌, ◌≡◌,
}
use multi_addon_rss.Prefs.Decimal.{ull_mod}
use multi_addon_rss.Prefs.Entries.Sound.{IsIdSet}
use multi_addon_rss.Prefs.IdSet.{
  IdSet, IdSet_ext, insert, insert-Ascends, insert-Below, member, member-insert,
}
use multi_addon_rss.Prefs.Legacy.{collect_legacy_opt_out_ids, collect_lines, legacy_id}
use multi_addon_rss.Prefs.Legacy.Text.{IsLineOf, IsLineOf-legacy_id, legacy_id-IsLineOf}

-- Each line holds the id of its place.
abbrev pub HoldIds : List Bytes → List ℕ → Type 0
HoldIds [] found = found ≡ []
HoldIds (line ∷ lines) found =
    (id : ℕ) × (rest : List ℕ) × (found ≡ id ∷ rest) × IsLineOf line id × HoldIds lines rest

abbrev pub NoRepeat : List ℕ → Type 0
NoRepeat [] = Unit {0}
NoRepeat (x ∷ xs) = (member x xs ≡ false) × NoRepeat xs

abbrev insert_all : IdSet → List ℕ → IdSet
insert_all ids [] = ids
insert_all ids (x ∷ xs) = insert_all (insert x ids) xs

abbrev Fresh : IdSet → List ℕ → Type 0
Fresh ids [] = Unit {0}
Fresh ids (x ∷ xs) = (member x ids ≡ false) × Fresh (insert x ids) xs

collect_found :
    (parsed : IdSet) (lines : List Bytes) (ids : IdSet)
    → collect_lines parsed lines ≡ some ids
    → (found : List ℕ) × HoldIds lines found × Fresh parsed found × (ids ≡ insert_all parsed found)
unfolding collect_lines
collect_found parsed [] ids h = ([], refl, tt, ground arith)
collect_found parsed (line ∷ lines) ids h = elim (Option-cases (legacy_id line)) [
  | inl e ↦ ground arith
  | inr (id, e) ↦
      let (rest, holds, fresh, all) = collect_found (insert id parsed) lines ids (ground arith) in
      (id ∷ rest, (id, rest, refl, legacy_id-IsLineOf line id e, holds), (ground arith, fresh), all)
]

found_collected :
    (parsed : IdSet) (lines : List Bytes) (found : List ℕ)
    → HoldIds lines found
    → Fresh parsed found
    → collect_lines parsed lines ≡ some (insert_all parsed found)
unfolding collect_lines
found_collected parsed [] found h f = rw h refl
found_collected parsed (line ∷ lines) found (id, rest, e, l, h) f =
    let fresh = subst (Fresh parsed) e f in
    let all = found_collected (insert id parsed) lines rest h fresh.1 in
    let step : collect_lines parsed (line ∷ lines) ≡ some (insert_all parsed (id ∷ rest)) =
      ground (arith, IsLineOf-legacy_id line id l, fresh.0, all) in
    step ∙ ap (λ xs. some (insert_all parsed xs)) (sym e)

member-insert_all :
    (x : ℕ) (ids : IdSet) (xs : List ℕ)
    → member x (insert_all ids xs) ≡ (member x ids || member x xs)
unfolding member
member-insert_all x ids [] = ground arith
member-insert_all x ids (y ∷ xs) =
    ground (arith, member-insert_all x (insert y ids) xs, member-insert y x ids)

insert_all-IsIdSet :
    (ids : IdSet) (lines : List Bytes) (xs : List ℕ)
    → IsIdSet ids
    → HoldIds lines xs
    → IsIdSet (insert_all ids xs)
insert_all-IsIdSet ids [] xs v h = subst (λ xs. IsIdSet (insert_all ids xs)) (sym h) v
insert_all-IsIdSet ids (line ∷ lines) xs v (id, rest, e, (digits, ends, f, n, d), h) =
    subst (λ xs. IsIdSet (insert_all ids xs)) (sym e)
      (insert_all-IsIdSet (insert id ids) lines rest
        (insert-Ascends id 0 ids v.0 d.positive, insert-Below id ull_mod ids v.1 d.in_range) h)

member_all : (x : ℕ) (xs : List ℕ) → member x (insert_all [] xs) ≡ member x xs
unfolding member
member_all x xs = member-insert_all x [] xs

-- Nothing of a list is in a set.
abbrev Apart : IdSet → List ℕ → Type 0
Apart ids xs = (x : ℕ) → member x xs ≡ true → member x ids ≡ false

Fresh-NoRepeat : (ids : IdSet) (xs : List ℕ) → Fresh ids xs → NoRepeat xs × Apart ids xs
unfolding member
Fresh-NoRepeat ids [] f = (tt, λ x h. ground arith)
Fresh-NoRepeat ids (y ∷ xs) f =
    let (none_twice, apart) = Fresh-NoRepeat (insert y ids) xs f.1 in
    (
      (ground (arith, apart y, member-insert y y ids), none_twice),
      λ x h. ground (arith, f.0, apart x, member-insert y x ids),
    )

NoRepeat-Fresh : (ids : IdSet) (xs : List ℕ) → NoRepeat xs → Apart ids xs → Fresh ids xs
unfolding member
NoRepeat-Fresh ids [] n a = tt
NoRepeat-Fresh ids (y ∷ xs) n a = (
  ground (arith, a y),
  NoRepeat-Fresh (insert y ids) xs n.1 λ x h. ground (arith, n.0, a x, member-insert y x ids),
)

-- The legacy collector succeeds with a set exactly if the file was read to its end, each line is the
-- decimal number of a nonzero 64-bit id and line ends behind it and nothing else, no id stands
-- twice, and the set is the ascending set of these ids.
pub collect_legacy_lines_iff :
    (lines : List Bytes) (read_ok : Bool) (out ids : IdSet)
    → (collect_legacy_opt_out_ids lines read_ok out ≡ (true, ids)) ↔ (
        (read_ok ≡ true)
        × ((found : List ℕ) × HoldIds lines found
            × NoRepeat found
            × IsIdSet ids
            × ((x : ℕ) → member x ids ≡ member x found)))
unfolding collect_legacy_opt_out_ids
collect_legacy_lines_iff lines false out ids = (λ h. ground arith, λ h. ground arith)
collect_legacy_lines_iff lines true out ids = (forth, back)
  where
    forth :
        collect_legacy_opt_out_ids lines true out ≡ (true, ids)
        → (true ≡ true)
          × ((found : List ℕ) × HoldIds lines found
              × NoRepeat found
              × IsIdSet ids
              × ((x : ℕ) → member x ids ≡ member x found))
    forth h =
        let (found, holds, fresh, all) = collect_found [] lines ids (ground arith) in
        (
          refl,
          (
            found,
            holds,
            (Fresh-NoRepeat [] found fresh).0,
            subst IsIdSet (sym all) (insert_all-IsIdSet [] lines found (tt, tt) holds),
            λ x. ap (member x) all ∙ member_all x found,
          ),
        )

    back :
        (true ≡ true)
          × ((found : List ℕ) × HoldIds lines found
              × NoRepeat found
              × IsIdSet ids
              × ((x : ℕ) → member x ids ≡ member x found))
        → collect_legacy_opt_out_ids lines true out ≡ (true, ids)
    back (_, (found, holds, once, valid, all)) =
        let same =
          IdSet_ext 0 (insert_all [] found) ids (insert_all-IsIdSet [] lines found (tt, tt) holds).0
            valid.0 (λ x. member_all x found ∙ sym (all x)) in
        rw
          (found_collected [] lines found holds
            (NoRepeat-Fresh [] found once λ x h. unfold member in refl))
          (ap (λ s. (true, s)) same)

-- A set that the collector publishes is one of nonzero 64-bit ids.
pub collect_legacy-IsIdSet :
    (lines : List Bytes) (read_ok : Bool) (out ids : IdSet)
    → collect_legacy_opt_out_ids lines read_ok out ≡ (true, ids)
    → IsIdSet ids
collect_legacy-IsIdSet lines read_ok out ids h =
    let (_, (found, holds, once, valid, all)) =
      (collect_legacy_lines_iff lines read_ok out ids).0 h in
    valid
