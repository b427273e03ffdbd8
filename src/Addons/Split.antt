-- ===== src/Addons/Split.antt =====
-- Joining and splitting at commas.
use multi_addon_rss.Addons.{
  find_and_remove, flush, is_empty, split_at_commas, string_to_vector, vector_to_string,
}
use multi_addon_rss.Base.{
  Bool, Bytes, List, [], ap, append-nil, append_assoc, arith, false, if◌then◌else◌, refl, sym, true,
  ℕ, ◌++◌, ◌==◌, ◌||◌, ◌∙◌, ◌∷◌, ◌≡◌,
}

-- A nonempty id with no comma.
abbrev pub has_comma : Bytes → Bool
has_comma [] = false
has_comma (c ∷ s) = c == 44 || has_comma s

abbrev pub AllIds : List Bytes → Type 0
AllIds [] = Unit {0}
AllIds (a ∷ xs) = ((is_empty a ≡ false) × (has_comma a ≡ false)) × AllIds xs

split_at_commas-plain :
    (piece a s : Bytes)
    → has_comma a ≡ false
    → split_at_commas piece (a ++ s) ≡ split_at_commas (piece ++ a) s
unfolding split_at_commas
split_at_commas-plain piece [] s h = rw append-nil
split_at_commas-plain piece (c ∷ a) s h =
    ground (arith, split_at_commas-plain (piece ++ c ∷ []) a s, append_assoc piece (c ∷ []) a)

flush_id : (a : Bytes) (rest : List Bytes) → is_empty a ≡ false → flush a rest ≡ a ∷ rest
unfolding is_empty
flush_id [] rest h = cc
flush_id (c ∷ a) rest h = refl

split_end : (piece : Bytes) → split_at_commas piece [] ≡ flush piece []
unfolding split_at_commas
split_end piece = refl

split_comma :
    (piece s : Bytes) → split_at_commas piece (44 ∷ s) ≡ flush piece (split_at_commas [] s)
unfolding split_at_commas
split_comma piece s = refl

split-vector_to_string :
    (xs : List Bytes) → AllIds xs → split_at_commas [] (vector_to_string xs) ≡ xs
unfolding vector_to_string
split-vector_to_string [] h = split_end []
split-vector_to_string (a ∷ []) ((e, k), r) =
    ap (split_at_commas []) (sym (append-nil a))
    ∙ split_at_commas-plain [] a [] k
    ∙ split_end a
    ∙ flush_id a [] e
split-vector_to_string (a ∷ b ∷ xs) ((e, k), r) =
    split_at_commas-plain [] a _ k
    ∙ split_comma a (vector_to_string (b ∷ xs))
    ∙ rw (split-vector_to_string (b ∷ xs) r) (flush_id a (b ∷ xs) e)

has_comma-snoc :
    (c : ℕ) (s : Bytes) → has_comma s ≡ false → (c == 44) ≡ false → has_comma (s ++ c ∷ []) ≡ false
has_comma-snoc c [] h k = ground arith
has_comma-snoc c (d ∷ s) h k = ground (arith, has_comma-snoc c s)

flush-AllIds :
    (piece : Bytes) (rest : List Bytes)
    → has_comma piece ≡ false
    → AllIds rest
    → AllIds (flush piece rest)
flush-AllIds [] rest h r = r
flush-AllIds (c ∷ s) rest h r = ((unfold is_empty in refl, h), r)

AllIds-if :
    (b : Bool) (x y : List Bytes) → AllIds x → (b ≡ false → AllIds y) → AllIds (if b then x else y)
AllIds-if true x y p q = p
AllIds-if false x y p q = q refl

split-AllIds : (piece s : Bytes) → has_comma piece ≡ false → AllIds (split_at_commas piece s)
unfolding split_at_commas
split-AllIds piece [] h = flush-AllIds piece [] h tt
split-AllIds piece (c ∷ s) h =
    AllIds-if (c == 44) (flush piece (split_at_commas [] s)) (split_at_commas (piece ++ c ∷ []) s)
      (flush-AllIds piece _ h (split-AllIds [] s refl))
      λ e. split-AllIds (piece ++ c ∷ []) s (has_comma-snoc c piece h e)

-- Splitting at commas undoes joining, for ids that are not empty and hold no comma.
pub string_to_vector-vector_to_string :
    (xs : List Bytes) → AllIds xs → string_to_vector (vector_to_string xs) ≡ xs
unfolding string_to_vector
string_to_vector-vector_to_string xs h = split-vector_to_string xs h

-- Splitting at commas yields ids that are not empty and hold no comma.
pub string_to_vector-AllIds : (s : Bytes) → AllIds (string_to_vector s)
unfolding string_to_vector
string_to_vector-AllIds s = split-AllIds [] s (refl)

pub find_and_remove-AllIds :
    (a : Bytes) (xs : List Bytes) → AllIds xs → AllIds (find_and_remove a xs)
unfolding find_and_remove
find_and_remove-AllIds a [] h = tt
find_and_remove-AllIds a (x ∷ xs) h = ground (arith, find_and_remove-AllIds a xs h.1)
