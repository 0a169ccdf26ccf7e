-- ===== src/Dispatch/Subscribers.antt =====
-- `subscribe` and `unsubscribe` of src/DispatchMsgService.cc: the map from event ids to the
-- handlers that are subscribed, as addresses, in order of subscription.
pub mod Laws
use shared_bike.Base.{
  ℕ, Bool, true, false, Option, none, some, List, [], ◌∷◌, ◌++◌, ◌==◌, ◌||◌, if◌then◌else◌,
}

abbrev pub HandlerPtr : Type 0
HandlerPtr = ℕ

abbrev pub EventHandlers : Type 0
EventHandlers = List HandlerPtr

-- The `unordered_map`, which has one entry for a key.
abbrev pub EventHandlersMap : Type 0
EventHandlersMap = List (ℕ × EventHandlers)

-- `subscribers_.find(eid)`
unfoldable pub find_handlers : ℕ → EventHandlersMap → Option EventHandlers
find_handlers eid [] = none
find_handlers eid ((k, hs) ∷ m) = if k == eid then some hs else find_handlers eid m

-- The assignment to the entry of `eid`, which `operator[]` makes if there is none.
unfoldable pub store_handlers : ℕ → EventHandlers → EventHandlersMap → EventHandlersMap
store_handlers eid hs [] = (eid, hs) ∷ []
store_handlers eid hs ((k, ks) ∷ m) =
    if k == eid then (k, hs) ∷ m else (k, ks) ∷ store_handlers eid hs m

-- `std::find(...) != end()`
unfoldable pub contains : HandlerPtr → EventHandlers → Bool
contains h [] = false
contains h (x ∷ xs) = (x == h) || contains h xs

-- `erase(std::find(...))`: the first occurrence.
unfoldable pub erase : HandlerPtr → EventHandlers → EventHandlers
erase h [] = []
erase h (x ∷ xs) = if x == h then xs else x ∷ erase h xs

unfoldable pub subscribe : ℕ → HandlerPtr → EventHandlersMap → EventHandlersMap
subscribe eid handler m = elim (find_handlers eid m) [
  | none ↦ store_handlers eid (handler ∷ []) m
  | some hs ↦ if contains handler hs then m else store_handlers eid (hs ++ handler ∷ []) m
]

unfoldable pub unsubscribe : ℕ → HandlerPtr → EventHandlersMap → EventHandlersMap
unsubscribe eid handler m = elim (find_handlers eid m) [
  | none ↦ m
  | some hs ↦ if contains handler hs then store_handlers eid (erase handler hs) m else m
]
