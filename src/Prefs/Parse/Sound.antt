-- ===== src/Prefs/Parse/Sound.antt =====
-- Whatever the parser publishes is a set of valid ids.
use multi_addon_rss.Base.{
  Bool, Bytes, Ensures, Ensures-then, Option, [], equal, false, guard, if◌then◌else◌, inl, inr,
  length, meets, none, not, refl, refused, some, suc, true, zero, ℕ, ◌&&◌, ◌>>◌, ◌∷◌, ◌≡◌, ◌⊎◌,
}
use multi_addon_rss.Prefs.Chars.{consume_char, is_token_delimiter, skip_ws_and_comments}
use multi_addon_rss.Prefs.Entries.{Outcome, Round, again, closed, no_ids, ok, out_of_fuel, rejected}
use multi_addon_rss.Prefs.Entries.Sound.{
  IdsInv, IsIdSet, RoundSays, Says, ids_loop-IdsInv, separator-RoundSays,
}
use multi_addon_rss.Prefs.IdSet.{IdSet}
use multi_addon_rss.Prefs.Parse.{
  Doc, and_then, doc_end, doc_key, doc_loop, doc_pair, doc_round, doc_start, doc_value, empty_doc,
  lift, opt_out_key, opt_out_value, parse_rss_asset_preferences, parse_with, published, version_key,
  version_value,
}

Says-lift : {A : Type 0} (P : A → Type 0) (m : Option A) → Ensures P m → Says P (lift m)
Says-lift P none p = tt
Says-lift P (some a) (meets p) = p

Says-and_then :
    {A B : Type 0} (P : A → Type 0) (Q : B → Type 0) (m : Outcome A) (f : A → Outcome B)
    → Says P m
    → ((a : A) → P a → Says Q (f a))
    → Says Q (and_then m f)
Says-and_then P Q (ok a) f p k = k a p
Says-and_then P Q rejected f p k = tt
Says-and_then P Q out_of_fuel f p k = tt

Says-if :
    {A : Type 0} (P : A → Type 0) (b : Bool) (x y : Outcome A)
    → Says P x
    → Says P y
    → Says P (if b then x else y)
Says-if P true x y p q = p
Says-if P false x y p q = q

Says-any : {A : Type 0} (m : Outcome A) → Says (λ _. Unit {0}) m
Says-any (ok a) = tt
Says-any rejected = tt
Says-any out_of_fuel = tt

abbrev DocInv : Doc → Type 0
DocInv d = IdsInv d.ids

abbrev ValueInv : Doc × Bytes → Type 0
ValueInv r = DocInv r.0

version_value-DocInv : (d : Doc) (s : Bytes) → DocInv d → Ensures ValueInv (version_value d s)
unfolding version_value
version_value-DocInv d s v = Ensures-then (guard (not d.seen_version)) _ λ _ _.
    Ensures-then (consume_char 49 s) _
      λ rest _. Ensures-then (guard (is_token_delimiter rest)) _ λ _ _. meets {a = (_, rest)} v

opt_out_value-DocInv :
    (f : ℕ) (d : Doc) (s : Bytes) → DocInv d → Says ValueInv (opt_out_value f d s)
unfolding opt_out_value
opt_out_value-DocInv f d s v =
    let open_brace = guard (not d.seen_opt_out) >> consume_char 123 s in
    Says-and_then (λ _. Unit {0}) ValueInv (lift open_brace) _ (Says-any (lift open_brace))
      λ rest _.
        Says-and_then (λ r. IdsInv r.0) ValueInv _ _ (ids_loop-IdsInv f d.ids rest v) λ r p. p

doc_value-DocInv :
    (f : ℕ) (d : Doc) (key s : Bytes) → DocInv d → Says ValueInv (doc_value f d key s)
unfolding doc_value
doc_value-DocInv f d key s v =
    Says-if ValueInv (equal key version_key) _ _ (Says-lift ValueInv _ (version_value-DocInv d s v))
      (Says-if ValueInv (equal key opt_out_key) _ _ (opt_out_value-DocInv f d s v) tt)

doc_pair-DocInv :
    (f : ℕ) (d : Doc) (s : Bytes) → DocInv d → Says (RoundSays DocInv) (doc_pair f d s)
unfolding doc_pair
doc_pair-DocInv f d s v =
    Says-and_then (λ _. Unit {0}) (RoundSays DocInv) (lift (doc_key s)) _
      (Says-any (lift (doc_key s)))
      λ k _. Says-and_then ValueInv (RoundSays DocInv) _ _ (doc_value-DocInv f d k.0 k.1 v) λ r p.
        Says-lift (RoundSays DocInv) _
          (Ensures-then (skip_ws_and_comments r.1) _ λ s₁ _. separator-RoundSays DocInv r.0 s₁ p)

doc_round-DocInv :
    (f : ℕ) (d : Doc) (s : Bytes) → DocInv d → Says (RoundSays DocInv) (doc_round f d s)
unfolding doc_round
doc_round-DocInv f d s v =
    Says-and_then (λ _. Unit {0}) (RoundSays DocInv) (lift (skip_ws_and_comments s)) _
      (Says-any (lift (skip_ws_and_comments s))) λ s₁ _. go s₁ (consume_char 125 s₁)
  where
    go :
        (s₁ : Bytes) (m : Option Bytes)
        → Says
            (RoundSays DocInv)
            (elim m [ some rest ↦ ok (closed d rest) | none ↦ doc_pair f d s₁ ])
    go s₁ (some rest) = v
    go s₁ none = doc_pair-DocInv f d s₁ v

doc_loop-DocInv : (f : ℕ) (d : Doc) (s : Bytes) → DocInv d → Says ValueInv (doc_loop f d s)
unfolding doc_loop
doc_loop-DocInv zero d s v = tt
doc_loop-DocInv (suc f) d s v = go (doc_loop-DocInv f) (doc_round f d s) (doc_round-DocInv f d s v)
  where
    go :
        ((i : Doc) (rest : Bytes) → DocInv i → Says ValueInv (doc_loop f i rest))
        → (m : Outcome (Round Doc)) → Says (RoundSays DocInv) m
        → Says ValueInv (elim m [
          | rejected ↦ rejected
          | out_of_fuel ↦ out_of_fuel
          | ok (closed d' rest) ↦ ok (d', rest)
          | ok (again d' rest) ↦ doc_loop f d' rest
        ])
    go ih rejected p = tt
    go ih out_of_fuel p = tt
    go ih (ok (closed i rest)) p = p
    go ih (ok (again i rest)) p = ih i rest p

doc_end-IsIdSet : (d : Doc) (s : Bytes) → DocInv d → Ensures IsIdSet (doc_end d s)
unfolding doc_end
doc_end-IsIdSet d s v =
    Ensures-then (guard (d.seen_version && d.seen_opt_out)) _
      λ _ _. Ensures-then (skip_ws_and_comments s) _ λ s₁ _. go s₁
  where
    go : (s₁ : Bytes) → Ensures IsIdSet (elim s₁ [ [] ↦ some d.ids.parsed | _ ∷ _ ↦ none ])
    go [] = meets v.parsed_valid
    go (c ∷ s₁) = refused

empty-IdsInv : IdsInv no_ids
empty-IdsInv = record { parsed_valid = (tt, tt); seen_valid = (tt, tt); parsed_seen = λ x h. h }

parse_with-IsIdSet : (f : ℕ) (doc : Bytes) → Says IsIdSet (parse_with f doc)
unfolding parse_with
parse_with-IsIdSet f doc =
    Says-and_then (λ _. Unit {0}) IsIdSet (lift (doc_start doc)) _ (Says-any (lift (doc_start doc)))
      λ s _.
        Says-and_then ValueInv IsIdSet _ _ (doc_loop-DocInv f empty_doc s empty-IdsInv)
          λ r p. Says-lift IsIdSet _ (doc_end-IsIdSet r.0 r.1 p)

-- A parse publishes a set of nonzero 64-bit ids, ascending and without repeats, or fails and leaves
-- `out` as it was.
pub parse-IsIdSet :
    (doc : Bytes) (out : IdSet)
    → let r = parse_rss_asset_preferences doc out in
      ((r.0 ≡ true) × IsIdSet r.1) ⊎ ((r.0 ≡ false) × (r.1 ≡ out))
unfolding parse_rss_asset_preferences
parse-IsIdSet doc out =
    go (parse_with (suc (length doc)) doc) (parse_with-IsIdSet (suc (length doc)) doc)
  where
    go :
        (o : Outcome IdSet)
        → Says IsIdSet o
        → (((published o out).0 ≡ true) × IsIdSet (published o out).1)
          ⊎ (((published o out).0 ≡ false) × ((published o out).1 ≡ out))
    go (ok ids) p = inl (refl, p)
    go rejected p = inr (refl, refl)
    go out_of_fuel p = inr (refl, refl)
