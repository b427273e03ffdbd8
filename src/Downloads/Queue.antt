-- ===== src/Downloads/Queue.antt =====
-- The download queue: no addon is queued twice, and a batch reloads the map once.
use multi_addon_rss.Base.{
  Bool, Bool-cases, Bytes, List, [], arith, false, if◌then◌else◌, inl, inr, not, refl, true, ℕ,
  ◌&&◌, ◌++◌, ◌==◌, ◌||◌, ◌∷◌, ◌≡◌,
}
use multi_addon_rss.Downloads.{
  Downloads, Steam, download_addon, enqueue, finish_downloads, is_listed_id, is_none_left,
  on_addon_downloaded, remove_id,
}

abbrev pub AllDifferent : List ℕ → Type 0
AllDifferent [] = Unit {0}
AllDifferent (x ∷ xs) = (is_listed_id x xs ≡ false) × AllDifferent xs

-- No addon stands twice in a list, and the important ones are queued.
abbrev pub IsQueued : Downloads → Type 0
IsQueued d =
    AllDifferent d.queue
    × AllDifferent d.important
    × ((x : ℕ) → is_listed_id x d.important ≡ true → is_listed_id x d.queue ≡ true)

is_listed_id-append :
    (x : ℕ) (xs ys : List ℕ) → is_listed_id x (xs ++ ys) ≡ (is_listed_id x xs || is_listed_id x ys)
unfolding is_listed_id
is_listed_id-append x [] ys = refl
is_listed_id-append x (z ∷ xs) ys = ground (arith, is_listed_id-append x xs ys)

is_listed_id_single : (x y : ℕ) → is_listed_id x (y ∷ []) ≡ (y == x)
unfolding is_listed_id
is_listed_id_single x y = ground arith

AllDifferent-snoc :
    (x : ℕ) (xs : List ℕ)
    → AllDifferent xs
    → is_listed_id x xs ≡ false
    → AllDifferent (xs ++ x ∷ [])
unfolding is_listed_id
AllDifferent-snoc x [] d h = (refl, tt)
AllDifferent-snoc x (y ∷ ys) d h =
    ground (
      arith,
      AllDifferent-snoc x ys d.1,
      is_listed_id-append y ys (x ∷ []),
      is_listed_id_single y x,
    )

remove_absent : (x : ℕ) (xs : List ℕ) → is_listed_id x xs ≡ false → remove_id x xs ≡ xs
unfolding remove_id is_listed_id
remove_absent x [] h = refl
remove_absent x (y ∷ ys) h = ground (arith, remove_absent x ys)

is_listed_id-remove :
    (x y : ℕ) (xs : List ℕ)
    → AllDifferent xs
    → is_listed_id y (remove_id x xs) ≡ (if x == y then false else is_listed_id y xs)
unfolding remove_id is_listed_id
is_listed_id-remove x y [] d = ground arith
is_listed_id-remove x y (z ∷ zs) d = ground (arith, is_listed_id-remove x y zs d.1)

remove-AllDifferent : (x : ℕ) (xs : List ℕ) → AllDifferent xs → AllDifferent (remove_id x xs)
unfolding remove_id
remove-AllDifferent x [] d = tt
remove-AllDifferent x (y ∷ ys) d =
    ground (arith, remove-AllDifferent x ys d.1, is_listed_id-remove x y ys d.1)

enqueue-IsQueued :
    (important : Bool) (id : ℕ) (d : Downloads)
    → IsQueued d
    → is_listed_id id d.queue ≡ false
    → IsQueued (enqueue important id d)
unfolding enqueue
enqueue-IsQueued important id d v h =
    let in_queue = is_listed_id-append in
    elim (Bool-cases (important && not (is_listed_id id d.important))) [
      | inl e ↦ rw e (
        AllDifferent-snoc id d.queue v.0 h,
        AllDifferent-snoc id d.important v.1 (ground arith),
        λ x k.
            ground (arith, v.2 x, in_queue x d.queue (id ∷ []), in_queue x d.important (id ∷ [])),
      )
      | inr e ↦ rw e (
        AllDifferent-snoc id d.queue v.0 h,
        v.1,
        λ x k. ground (arith, v.2 x, in_queue x d.queue (id ∷ [])),
      )
    ]

kept-if :
    (b : Bool) (x y : Bool × Downloads)
    → IsQueued x.1
    → IsQueued y.1
    → IsQueued (if b then x else y).1
kept-if true x y p q = p
kept-if false x y p q = q

-- On every path, `DownloadAddon` keeps the queue and the important downloads without repeats, and
-- the important ones queued.
pub download_addon-IsQueued :
    (s : Steam) (d : Downloads) (addon : Bytes) (important force : Bool)
    → IsQueued d
    → IsQueued (download_addon s d addon important force).1
unfolding download_addon
download_addon-IsQueued s d addon important force v =
    let id = s.to_uint64 addon in
    let started : Bool × Downloads = (true, enqueue important id d) in
    let tried : Bool × Downloads = if not (s.download_item id) then (false, d) else started in
    let fetched : Bool × Downloads = if not force && s.is_installed id then (true, d) else tried in
    let checked : Bool × Downloads = if is_listed_id id d.queue then (false, d) else fetched in
    kept-if (not s.has_ugc) (false, d) (if id == 0 then (false, d) else checked) v
      (kept-if (id == 0) (false, d) checked v
        (elim (Bool-cases (is_listed_id id d.queue)) [
          | inl e ↦ rw e v
          | inr e ↦ rw e (
              kept-if (not force && s.is_installed id) (true, d) tried v
                (kept-if (not (s.download_item id)) (false, d) started v
                  (enqueue-IsQueued important id d v e)))
        ]))

unlisted_of_none : (x : ℕ) (xs : List ℕ) → is_none_left xs ≡ true → is_listed_id x xs ≡ false
unfolding is_listed_id
unlisted_of_none x [] h = refl
unlisted_of_none x (y ∷ ys) h = absurd (ground arith)

finish_from :
    (q imp : List ℕ)
    → AllDifferent q
    → AllDifferent imp
    → ((x : ℕ) → is_listed_id x imp ≡ true → is_listed_id x q ≡ true)
    → finish_downloads q (record { important = imp; queue = q })
      ≡ (if is_none_left imp then 0 else 1)
unfolding finish_downloads on_addon_downloaded is_listed_id
finish_from [] [] a b sub = refl
finish_from [] (y ∷ imp) a b sub = absurd (ground (arith, sub y))
finish_from (x ∷ q) imp a b sub =
    let rest =
      finish_from q (remove_id x imp) a.1 (remove-AllDifferent x imp b)
        (λ y k. ground (arith, is_listed_id-remove x y imp b, sub y)) in
    ground (arith, rest, remove_absent x imp, unlisted_of_none x imp)

-- A download that finishes at the head of the queue keeps `IsQueued`, and one that is not queued
-- changes nothing.
pub finish_head-IsQueued :
    (id : ℕ) (q imp : List ℕ)
    → IsQueued (record { important = imp; queue = id ∷ q })
    → IsQueued (on_addon_downloaded (record { important = imp; queue = id ∷ q }) id).0
unfolding on_addon_downloaded is_listed_id
finish_head-IsQueued id q imp v =
    let e : (id == id) ≡ true = ground arith in
    rw e (
      v.0.1,
      remove-AllDifferent id imp v.1,
      λ y k. ground (arith, is_listed_id-remove id y imp v.1, v.2 y),
    )

pub finish_unlisted :
    (id : ℕ) (d : Downloads) → is_listed_id id d.queue ≡ false → (on_addon_downloaded d id).0 ≡ d
unfolding on_addon_downloaded
finish_unlisted id d h = rw h refl

-- Where no addon stands twice in the queue or among the important downloads, and these are queued,
-- downloads that finish in the order of the queue reload the map once if one of them is important,
-- and never otherwise.
pub finish_once :
    (d : Downloads)
    → IsQueued d
    → finish_downloads d.queue d ≡ (if is_none_left d.important then 0 else 1)
finish_once d v = finish_from d.queue d.important v.0 v.1 v.2
