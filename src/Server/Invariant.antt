-- ===== src/Server/Invariant.antt =====
-- What holds of the server after any acts in any order.
use shared_bike.Base.{
  ℕ, ◌+◌, ◌≤◌, ◌≡◌, refl, true, false, Bool-cases, inl, inr, some, Option, none, List, [], ◌∷◌,
  ◌==◌, arith, Outcome, ok, fault, missing_return,
}
use shared_bike.Protobuf.{Protobuf}
use shared_bike.Event.{Event}
use shared_bike.Session.{SessionStatus, ss_request, ss_response}
use shared_bike.Network.{Connection}
use shared_bike.Network.Request.Hostile.{IsSound}
use shared_bike.Network.Response.{Sessions}
use shared_bike.Network.Response.Flush.{IsReply, AllReady}
use shared_bike.Server.{Server, put}
use shared_bike.Server.Count.{count_for, one_for-own, Each}

abbrev pub status_awaits : SessionStatus → ℕ
status_awaits ss_request = 0
status_awaits ss_response = 1

-- Whether the session at an address awaits a response.
abbrev pub awaiting : Option Connection → ℕ
awaiting none = 0
awaiting (some c) = status_awaits c.session.session_stat

abbrev pub HasSession : Event → Type 0
HasSession ev = (at : ℕ) × (ev.args ≡ some at)

abbrev pub CanSend : Protobuf → Event → Type 0
CanSend pb ev = IsReply pb ev × HasSession ev

-- Every session is sound. A session that awaits its response has exactly one event, with a thread,
-- among the responses or refused by the pool; any other session has none. Every response has a
-- message and a session, and the service is open.
pub record ServerInv {S : Type 0} (pb : Protobuf) (s : Server S) : Type 0 where
  pub sound : (at : ℕ) (c : Connection) → s.sessions at ≡ some c → IsSound c.session
  pub tally :
      (at : ℕ)
      → count_for at s.outstanding + count_for at s.service.response_events + count_for at s.lost
        ≡ awaiting (s.sessions at)
  pub addressed : Each HasSession s.outstanding
  pub replies : Each (CanSend pb) s.service.response_events
  pub open_ : s.service.svr_exit ≡ false

-- The one fault of a step.
abbrev pub Ends : {S : Type 0} → Protobuf → Outcome (Server S) → Type 0
Ends pb (ok t) = ServerInv pb t
Ends pb (fault x) = x ≡ missing_return

status_le : (st : SessionStatus) → status_awaits st ≤ 1
status_le ss_request = omega arith
status_le ss_response = omega arith

pub awaiting_le : (o : Option Connection) → awaiting o ≤ 1
awaiting_le none = omega arith
awaiting_le (some c) = status_le c.session.session_stat

pub put-cases :
    (at b : ℕ) (o : Option Connection) (ss : Sessions) (P : Option Connection → Type 0)
    → ((b == at) ≡ true → P o)
    → ((b == at) ≡ false → P (ss b))
    → P (put at o ss b)
put-cases at b o ss P here there = elim (Bool-cases (b == at)) [
  | inl own ↦ rw own (here own)
  | inr other ↦ rw other (there other)
]

-- A session with an event exists.
pub awaiting-some : (o : Option Connection) → 1 ≤ awaiting o → (c : Connection) × (o ≡ some c)
awaiting-some none h = absurd (omega (arith, h))
awaiting-some (some c) h = (c, refl)

module _ (pb : Protobuf) (ss : Sessions) where
  -- Responses whose sessions exist can be sent.
  pub Each-AllReady :
      (evs : List Event)
      → Each (CanSend pb) evs
      → ((at : ℕ) → count_for at evs ≤ awaiting (ss at))
      → AllReady pb ss evs
  Each-AllReady [] all le = tt
  Each-AllReady (ev ∷ evs) ((reply, (at, args)), all) le =
      let (c, found) = awaiting-some (ss at) (omega (arith, le at, one_for-own at ev args)) in
      (
        reply,
        record { at = at; connection = c; args = args; found = found },
        Each-AllReady evs all (λ b. omega (arith, le b)),
      )
