-- ===== src/Plugin/Events.antt =====
-- The event filter of src/multiaddonmanager.cpp, `Hook_PostEvent`, with the capture of the event
-- manager, the callback of `mm_client_extra_addons`, and `FindClientBySteamID`.
use multi_addon_rss.Addons.{string_to_vector}
use multi_addon_rss.Base.{
  ==_iff, Bool, Bool-cases, Bytes, List, Option, [], ap, arith, get_elem?, if◌then◌else◌, inl, inr,
  none, some, suc, ℕ, ◌&&◌, ◌+◌, ◌-◌, ◌==◌, ◌∙◌, ◌∷◌, ◌≡◌, ◌≤◌,
}
use multi_addon_rss.Clients.{Manager}

-- An event on its way to clients: whether it is a `GE_Source1LegacyGameEvent`, its id, and the
-- value of its key "reason".
pub record Event : Type 0 where
  pub is_legacy_event : Bool
  pub event_id : ℕ
  pub reason : ℕ

-- `*(uint64*)clients = 0`: the first word of the mask of the clients.
unfoldable pub clear_first : List ℕ → List ℕ
clear_first [] = []
clear_first (word ∷ words) = 0 ∷ words

-- `Hook_PostEvent`: the mask that the event goes out with. The arguments are the convar
-- `mm_block_disconnect_messages`, the id of "player_disconnect" and `NETWORK_DISCONNECT_LOOPSHUTDOWN`.
unfoldable pub hook_post_event : Bool → ℕ → ℕ → Event → List ℕ → List ℕ
hook_post_event block disconnect_id loop_shutdown event clients =
    if block && event.is_legacy_event
    then if event.event_id == disconnect_id
      then if event.reason == loop_shutdown then clear_first clients else clients
      else clients
    else clients

-- `Hook_LoadEventsFromFile` keeps the first event manager that it sees.
unfoldable pub hook_load_events_from_file : {A : Type 0} → A → Option A → Option A
hook_load_events_from_file this none = some this
hook_load_events_from_file this (some manager) = some manager

-- The callback of `mm_client_extra_addons`.
unfoldable pub on_client_extra_addons_changed : {T : Type 0} → Bytes → Manager T → Manager T
on_client_extra_addons_changed value m = record m { global_client_addons = string_to_vector value }

-- The loop of `FindClientBySteamID` over the slots of the client list, which may be empty, from the
-- slot `i` on: the slot of the client.
unfoldable pub find_slot : ℕ → ℕ → List (Option ℕ) → Option ℕ
find_slot id i [] = none
find_slot id i (none ∷ slots) = find_slot id (i + 1) slots
find_slot id i (some steam_id ∷ slots) =
    let rest = find_slot id (i + 1) slots in if steam_id == id then some i else rest

unfoldable pub find_client_by_steam_id : ℕ → Option (List (Option ℕ)) → Option ℕ
find_client_by_steam_id id none = none
find_client_by_steam_id id (some slots) = find_slot id 0 slots

-- The mask changes exactly for the disconnects that the filter is for.
hook_post_event_cleared :
    (block : Bool) (disconnect_id loop_shutdown : ℕ) (event : Event) (clients : List ℕ)
    → hook_post_event block disconnect_id loop_shutdown event clients ≡ (
        if block
          && (event.is_legacy_event
              && (event.event_id == disconnect_id && event.reason == loop_shutdown))
        then clear_first clients
        else clients)
unfolding hook_post_event
hook_post_event_cleared block disconnect_id loop_shutdown event clients = ground arith

find_slot_lem :
    (id i : ℕ) (slots : List (Option ℕ)) (k : ℕ)
    → find_slot id i slots ≡ some k
    → (i ≤ k) × (get_elem? slots (k - i) ≡ some (some id))
unfolding find_slot
find_slot_lem id i [] k h = absurd (ground arith)
find_slot_lem id i (none ∷ slots) k h =
    let (low, e) = find_slot_lem id (i + 1) slots k h in
    let next : k - i ≡ suc (k - (i + 1)) = omega (arith, low) in
    (omega (arith, low), ap (get_elem? (none ∷ slots)) next ∙ e)
find_slot_lem id i (some steam_id ∷ slots) k h = elim (Bool-cases (steam_id == id)) [
  | inl e ↦
      let here : i ≡ k = ground arith in
      let first : k - i ≡ 0 = omega (arith, here) in
      (
        omega (arith, here),
        ap (get_elem? (some steam_id ∷ slots)) first
            ∙ ap (λ x. some (some x)) ((==_iff steam_id id).0 e),
      )
  | inr e ↦
      let (low, q) = find_slot_lem id (i + 1) slots k (ground arith) in
      let next : k - i ≡ suc (k - (i + 1)) = omega (arith, low) in
      (omega (arith, low), ap (get_elem? (some steam_id ∷ slots)) next ∙ q)
]

-- A slot that is found holds the client.
find_client_by_steam_id_lem :
    (id k : ℕ) (slots : List (Option ℕ))
    → find_client_by_steam_id id (some slots) ≡ some k
    → get_elem? slots k ≡ some (some id)
unfolding find_client_by_steam_id
find_client_by_steam_id_lem id k slots h =
    let e : k ≡ k - 0 = omega arith in ap (get_elem? slots) e ∙ (find_slot_lem id 0 slots k h).1
