-- ===== src/Server.antt =====
-- The whole server: src/NetworkInterface.cc's callbacks, the service of src/DispatchMsgService.cc and
-- its threads, interleaved in any order. The thread pool is its specification: the events it has
-- accepted, of which the threads may finish any one next.
pub mod Count
pub mod Invariant
pub mod Arrivals
pub mod Flushed
pub mod Steps
pub mod Safety
pub mod HangUp
pub mod Refused
pub mod Codes
pub mod Logins
use shared_bike.Base.{
  ℕ, zero, suc, Bool, true, false, Option, none, some, List, [], ◌∷◌, ◌++◌, ◌==◌, if◌then◌else◌,
  get_elem?, Bytes, Outcome, ok, ◌>>=◌,
}
use shared_bike.Protobuf.{Protobuf}
use shared_bike.Event.{Event}
use shared_bike.Dispatch.Process.{Service, Handle, svc}
use shared_bike.Network.{Platform, Connection, Handled, listener_cb, handle_request}
use shared_bike.Network.Request.Chunks.{receive}
use shared_bike.Network.Response.{Sessions, left_by, handle_all_response_event, handle_error}

-- `outstanding` are the events that the pool accepted and no thread has finished, and `lost` those
-- that it refused: the caller ignores the result of `enqueue`.
pub record Server (S : Type 0) : Type 0 where
  pub sessions : Sessions
  pub outstanding : List Event
  pub lost : List Event
  pub service : Service S

pub data Act : Type 0 where
  -- a client connects: its session is at `at`
  connects : (at fd bev : ℕ) → Bytes → Act
  -- bytes arrive at a session; the pool accepts what `handle_request` posts, or refuses it
  arrives : (at : ℕ) → Bytes → (accepted : Bool) → Act
  -- a thread runs the outstanding event with this index
  serves : ℕ → Act
  -- `handleAllResponseEvent`
  flushes : Act
  -- end of file, a timeout or an error: `handle_error`
  hangs_up : (at : ℕ) → Act

abbrev pub put : ℕ → Option Connection → Sessions → Sessions
put at o ss = λ b. if b == at then o else ss b

abbrev pub remove {ℓ} : {A : Type ℓ} → List A → ℕ → List A
remove [] i = []
remove (e ∷ es) zero = es
remove (e ∷ es) (suc i) = e ∷ remove es i

abbrev pub enqueued_to : Option Event → Bool → List Event → List Event
enqueued_to (some ev) true evs = evs ++ ev ∷ []
enqueued_to (some ev) false evs = evs
enqueued_to none b evs = evs

abbrev pub lost_to : Option Event → Bool → List Event → List Event
lost_to (some ev) true evs = evs
lost_to (some ev) false evs = evs ++ ev ∷ []
lost_to none b evs = evs

-- After a run of `handle_request` for the session at `at`.
abbrev pub after_request : {S : Type 0} → ℕ → Bool → Handled → Server S → Server S
after_request at accepted h s = record {
  sessions = put at (left_by h.callback) s.sessions;
  outstanding = enqueued_to h.enqueued accepted s.outstanding;
  lost = lost_to h.enqueued accepted s.lost;
  service = record (s.service) { sn = h.sn };
}

module _ {S : Type 0} (pf : Platform) (pb : Protobuf) (handle : Handle S) where
  unfoldable pub step : Act → Server S → Outcome (Server S)
  step (connects at fd bev ip) s = do
    c ← listener_cb fd bev ip
    ok (record s { sessions = put at (some c) s.sessions })
  step (arrives at piece accepted) s = elim (s.sessions at) [
    | none ↦ ok s
    | some c ↦ do
      h ← handle_request pf pb at s.service.sn (receive c piece)
      ok (after_request at accepted h s)
  ]
  step (serves i) s = elim (get_elem? s.outstanding i) [
    | none ↦ ok s
    | some ev ↦ do
      t ← svc handle s.service ev
      ok (record s { outstanding = remove s.outstanding i; service = t })
  ]
  step flushes s = do
    ss ← handle_all_response_event pf pb s.service.response_events s.sessions
    ok (record s { sessions = ss; service = record (s.service) { response_events = [] } })
  step (hangs_up at) s = elim (s.sessions at) [
    | none ↦ ok s
    | some c ↦ do cb ← handle_error c; ok (record s { sessions = put at (left_by cb) s.sessions })
  ]

  unfoldable pub run : List Act → Server S → Outcome (Server S)
  run [] s = ok s
  run (a ∷ rest) s = do t ← step a s; run rest t
