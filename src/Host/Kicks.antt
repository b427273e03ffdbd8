-- ===== src/Host/Kicks.antt =====
-- The clients that `Hook_GameFrame` disconnects.
use multi_addon_rss.Addons.{is_empty}
use multi_addon_rss.Base.{
  Bool, Bool-cases, List, [], ap, arith, false, inl, inr, not, refl, subst, true, ℕ, ◌&&◌, ◌==◌,
  ◌||◌, ◌∷◌, ◌≡◌, ◌⊎◌,
}
use multi_addon_rss.Clients.{ClientAddonInfo, Floats, Manager, client_info, none_state}
use multi_addon_rss.Clients.Needed.{client_info_put}
use multi_addon_rss.Host.{hook_game_frame, kick, kick_timed_out}
use multi_addon_rss.Prefs.IdSet.{Ascends, erase, erase-Ascends, member, member-erase}

abbrev pub is_client : ℕ → List ℕ → Bool
is_client x [] = false
is_client x (y ∷ ys) = y == x || is_client x ys

module _ {T : Type 0} (fl : Floats T) where
  abbrev pub IsOut : Manager T → ℕ → Type 0
  IsOut m x = (client_info fl m x).connected_state ≡ none_state

  kick-IsOut : (m : Manager T) (id x : ℕ) → IsOut m x → IsOut (kick fl m id) x
  kick-IsOut m id x h = elim (Bool-cases (x == id)) [ inl e ↦ rw e refl | inr e ↦ rw e h ]

  kick_self : (m : Manager T) (id : ℕ) → IsOut (kick fl m id) id
  kick_self m id =
      ap (λ (i : ClientAddonInfo T). i.connected_state)
        (client_info_put fl (record m { timed_out_clients = erase id m.timed_out_clients }) id _)

  kicks-IsOut :
      (m : Manager T) (clients : List ℕ) (x : ℕ)
      → IsOut m x
      → IsOut (kick_timed_out fl m clients).0 x
  unfolding kick_timed_out
  kicks-IsOut m [] x h = h
  kicks-IsOut m (id ∷ clients) x h = elim (Bool-cases (member id m.timed_out_clients)) [
    | inl e ↦ rw e (kicks-IsOut (kick fl m id) clients x (kick-IsOut m id x h))
    | inr e ↦ rw e (kicks-IsOut m clients x h)
  ]

  kicked_of :
      (m : Manager T) (clients : List ℕ) (x : ℕ)
      → Ascends 0 m.timed_out_clients
      → is_client x (kick_timed_out fl m clients).1
        ≡ (is_client x clients && member x m.timed_out_clients)
  unfolding kick_timed_out
  kicked_of m [] x a = refl
  kicked_of m (id ∷ clients) x a = ground (
    arith,
    kicked_of m clients x a,
    kicked_of (kick fl m id) clients x (erase-Ascends id 0 m.timed_out_clients a),
    member-erase id x 0 m.timed_out_clients a,
  )

  left_of :
      (m : Manager T) (clients : List ℕ) (x : ℕ)
      → Ascends 0 m.timed_out_clients
      → member x (kick_timed_out fl m clients).0.timed_out_clients
        ≡ (member x m.timed_out_clients && not (is_client x clients))
  unfolding kick_timed_out
  left_of m [] x a = ground arith
  left_of m (id ∷ clients) x a = ground (
    arith,
    left_of m clients x a,
    left_of (kick fl m id) clients x (erase-Ascends id 0 m.timed_out_clients a),
    member-erase id x 0 m.timed_out_clients a,
  )

  kicked-IsOut :
      (m : Manager T) (clients : List ℕ) (x : ℕ)
      → is_client x (kick_timed_out fl m clients).1 ≡ true
      → IsOut (kick_timed_out fl m clients).0 x
  unfolding kick_timed_out
  kicked-IsOut m [] x h = absurd (ground arith)
  kicked-IsOut m (id ∷ clients) x h = elim (Bool-cases (member id m.timed_out_clients)) [
    | inl e ↦ rw e (elim (Bool-cases (id == x)) [
      | inl k ↦
          let same : id ≡ x = ground arith in
          kicks-IsOut (kick fl m id) clients x (subst (IsOut (kick fl m id)) same (kick_self m id))
      | inr k ↦ kicked-IsOut (kick fl m id) clients x (ground arith)
    ])
    | inr e ↦ rw e (kicked-IsOut m clients x (ground arith))
  ]

  kept_or-IsOut :
      (m : Manager T) (clients : List ℕ) (x : ℕ)
      → (is_client x (kick_timed_out fl m clients).1 ≡ false)
        ⊎ IsOut (kick_timed_out fl m clients).0 x
  kept_or-IsOut m clients x = elim (Bool-cases (is_client x (kick_timed_out fl m clients).1)) [
    | inl e ↦ inr (kicked-IsOut m clients x e)
    | inr e ↦ inl e
  ]

  -- A frame disconnects exactly the connected clients that timed out, takes them off the set of
  -- those that timed out, leaves all others in it, and marks the ones it disconnects as not
  -- connected. The set is an ascending list of nonzero ids.
  pub game_frame_kicks :
      (m : Manager T) (clients : List ℕ) (x : ℕ)
      → Ascends 0 m.timed_out_clients
      → let after = hook_game_frame fl m clients in
        (is_client x after.1 ≡ (is_client x clients && member x m.timed_out_clients))
        × (member x after.0.timed_out_clients
            ≡ (member x m.timed_out_clients && not (is_client x clients)))
        × ((is_client x after.1 ≡ false) ⊎ IsOut after.0 x)
  unfolding hook_game_frame
  game_frame_kicks m clients x a = elim (Bool-cases (is_empty m.timed_out_clients)) [
    | inl e ↦ rw e (none_kicked e)
    | inr e ↦ rw e (kicked_of m clients x a, left_of m clients x a, kept_or-IsOut m clients x)
  ]
    where
      empty_of : (ids : List ℕ) → is_empty ids ≡ true → member x ids ≡ false
      empty_of [] h = unfold member in refl
      empty_of (y ∷ ys) h = absurd (unfold is_empty in ground arith)

      none_kicked :
          is_empty m.timed_out_clients ≡ true
          → (false ≡ (is_client x clients && member x m.timed_out_clients))
            × (member x m.timed_out_clients
                ≡ (member x m.timed_out_clients && not (is_client x clients)))
            × ((false ≡ false) ⊎ IsOut m x)
      none_kicked h =
          let e = empty_of m.timed_out_clients h in (ground arith, ground arith, inl refl)
