-- ===== src/Dispatch/Subscribers/Laws.antt =====
-- What a subscription and its removal change, for every event id.
use shared_bike.Base.{
  ℕ, ◌≡◌, refl, false, Option, none, some, [], ◌∷◌, ◌++◌, ◌||◌, inl, inr, Bool-cases, Option-cases,
  arith, ◌==◌, if◌then◌else◌,
}
use shared_bike.Dispatch.Subscribers.{
  HandlerPtr, EventHandlers, EventHandlersMap, find_handlers, store_handlers, contains, erase,
  subscribe, unsubscribe,
}

-- The handlers that an event with this id is given to.
abbrev or_nobody : Option EventHandlers → EventHandlers
or_nobody none = []
or_nobody (some hs) = hs

unfoldable pub handlers_of : ℕ → EventHandlersMap → EventHandlers
handlers_of eid m = or_nobody (find_handlers eid m)

-- No handler stands twice.
abbrev pub Distinct : EventHandlers → Type 0
Distinct [] = Unit {0}
Distinct (x ∷ xs) = (contains x xs ≡ false) × Distinct xs

find-store :
    (eid k : ℕ) (hs : EventHandlers) (m : EventHandlersMap)
    → find_handlers k (store_handlers eid hs m) ≡ (if eid == k then some hs else find_handlers k m)
unfolding find_handlers store_handlers
find-store eid k hs [] = refl
find-store eid k hs ((j, js) ∷ m) = ground (arith, find-store eid k hs m)

-- `subscribe` puts the handler behind those of its event id, unless it is there already, and
-- changes no other event id.
pub handlers_of-subscribe :
    (eid k : ℕ) (h : HandlerPtr) (m : EventHandlersMap)
    → handlers_of k (subscribe eid h m) ≡ (
        if eid == k
        then (if contains h (handlers_of k m) then handlers_of k m else handlers_of k m ++ h ∷ [])
        else handlers_of k m)
unfolding handlers_of subscribe contains
handlers_of-subscribe eid k h m = elim (Option-cases (find_handlers eid m)) [
  | inl e ↦ ground (arith, e, find-store eid k (h ∷ []) m)
  | inr (hs, e) ↦ ground (arith, e, find-store eid k (hs ++ h ∷ []) m)
]

erase_absent : (h : HandlerPtr) (hs : EventHandlers) → contains h hs ≡ false → erase h hs ≡ hs
unfolding contains erase
erase_absent h [] e = refl
erase_absent h (x ∷ xs) e = ground (arith, erase_absent h xs)

-- `unsubscribe` takes the first occurrence of the handler out of its event id's handlers, and
-- changes no other event id.
pub handlers_of-unsubscribe :
    (eid k : ℕ) (h : HandlerPtr) (m : EventHandlersMap)
    → handlers_of k (unsubscribe eid h m)
      ≡ (if eid == k then erase h (handlers_of k m) else handlers_of k m)
unfolding handlers_of unsubscribe erase
handlers_of-unsubscribe eid k h m = elim (Option-cases (find_handlers eid m)) [
  | inl e ↦ ground (arith, e)
  | inr (hs, e) ↦ ground (arith, e, find-store eid k (erase h hs) m, erase_absent h hs)
]

contains-append :
    (h : HandlerPtr) (xs ys : EventHandlers)
    → contains h (xs ++ ys) ≡ (contains h xs || contains h ys)
unfolding contains
contains-append h [] ys = refl
contains-append h (x ∷ xs) ys = ground (arith, contains-append h xs ys)

erase-append_last :
    (h : HandlerPtr) (xs : EventHandlers) → contains h xs ≡ false → erase h (xs ++ h ∷ []) ≡ xs
unfolding contains erase
erase-append_last h [] e = ground arith
erase-append_last h (x ∷ xs) e = ground (arith, erase-append_last h xs)

-- A handler that subscribes and unsubscribes again leaves every event id with the handlers that it
-- had, if it was not subscribed before.
pub unsubscribe-subscribe :
    (eid k : ℕ) (h : HandlerPtr) (m : EventHandlersMap)
    → contains h (handlers_of eid m) ≡ false
    → handlers_of k (unsubscribe eid h (subscribe eid h m)) ≡ handlers_of k m
unsubscribe-subscribe eid k h m e = ground (
  arith,
  handlers_of-unsubscribe eid k h (subscribe eid h m),
  handlers_of-subscribe eid k h m,
  erase-append_last h (handlers_of k m),
)

Distinct-append :
    (h : HandlerPtr) (xs : EventHandlers)
    → contains h xs ≡ false
    → Distinct xs
    → Distinct (xs ++ h ∷ [])
unfolding contains
Distinct-append h [] e d = (refl, tt)
Distinct-append h (x ∷ xs) e d =
    (ground (arith, contains-append x xs (h ∷ [])), Distinct-append h xs (ground arith) d.1)

contains-erase :
    (h x : HandlerPtr) (xs : EventHandlers)
    → contains x xs ≡ false
    → contains x (erase h xs) ≡ false
unfolding contains erase
contains-erase h x [] e = refl
contains-erase h x (y ∷ ys) e = ground (arith, contains-erase h x ys)

Distinct-erase : (h : HandlerPtr) (xs : EventHandlers) → Distinct xs → Distinct (erase h xs)
unfolding erase
Distinct-erase h [] d = tt
Distinct-erase h (x ∷ xs) d = elim (Bool-cases (x == h)) [
  | inl hit ↦ rw hit d.1
  | inr miss ↦ rw miss (contains-erase h x xs d.0, Distinct-erase h xs d.1)
]

-- `subscribe` and `unsubscribe` keep the handlers of every event id free of repetition: where no
-- handler stands twice before, none does after.
pub subscribe-Distinct :
    (eid k : ℕ) (h : HandlerPtr) (m : EventHandlersMap)
    → Distinct (handlers_of k m)
    → Distinct (handlers_of k (subscribe eid h m)) × Distinct (handlers_of k (unsubscribe eid h m))
subscribe-Distinct eid k h m d = (
  rw (handlers_of-subscribe eid k h m) (elim (Bool-cases (eid == k)) [
    | inr other ↦ rw other d
    | inl own ↦ rw own (elim (Bool-cases (contains h (handlers_of k m))) [
      | inl old ↦ rw old d
      | inr new ↦ rw new (Distinct-append h (handlers_of k m) new d)
    ])
  ]),
  rw (handlers_of-unsubscribe eid k h m) (elim (Bool-cases (eid == k)) [
    | inr other ↦ rw other d
    | inl own ↦ rw own (Distinct-erase h (handlers_of k m) d)
  ]),
)
