-- ===== src/Server/Refused.antt =====
-- A request that the full pool of src/threadpool/ refuses, in src/NetworkInterface.cc.
use shared_bike.Base.{
  ℕ, ◌≤◌, ◌≡◌, subst, Bool, true, false, inl, inr, some, Option, Option-cases, none, List, [], ◌∷◌,
  arith, get_elem?, Outcome, Outcome-cases, ok, fault,
}
use shared_bike.Protobuf.{Protobuf}
use shared_bike.Event.{Event}
use shared_bike.Dispatch.Process.{Handle, svc}
use shared_bike.Network.{Platform, listener_cb, handle_request}
use shared_bike.Network.Request.Chunks.{receive}
use shared_bike.Network.Response.{handle_error, handle_all_response_event}
use shared_bike.Server.{lost_to, Server, Act, connects, arrives, serves, flushes, hangs_up, step}
use shared_bike.Server.Count.{count_for, count_for-append}
use shared_bike.Server.Invariant.{awaiting, ServerInv, Ends, awaiting_le}
use shared_bike.Server.Steps.{step-Inv}
use shared_bike.Server.Safety.{started, Reach, here, next, Reach-Inv}
use shared_bike.Dispatch.Subscribers.{EventHandlersMap}

-- No act takes a refused event off the list of them.
abbrev KeepsLost : {S : Type 0} → ℕ → ℕ → Outcome (Server S) → Type 0
KeepsLost at n (ok t) = n ≤ count_for at t.lost
KeepsLost at n (fault x) = Unit {0}

lost_to-le :
    (at : ℕ) (ev : Option Event) (b : Bool) (evs : List Event)
    → count_for at evs ≤ count_for at (lost_to ev b evs)
lost_to-le at none b evs = omega arith
lost_to-le at (some ev) true evs = omega arith
lost_to-le at (some ev) false evs = omega (arith, count_for-append at evs (ev ∷ []))

module _ {S : Type 0} (pf : Platform) (pb : Protobuf) (handle : Handle S) where
  step-KeepsLost :
      (act : Act) (s : Server S) (at : ℕ)
      → KeepsLost at (count_for at s.lost) (step pf pb handle act s)
  unfolding step
  step-KeepsLost (connects b fd bev ip) s at = elim (Outcome-cases (listener_cb fd bev ip)) [
    | inl (c, e) ↦ rw (e, step) (omega arith)
    | inr (x, e) ↦ rw (e, step) tt
  ]
  step-KeepsLost (arrives b piece accepted) s at = elim (Option-cases (s.sessions b)) [
    | inl missing ↦ rw (missing, step) (omega arith)
    | inr (c, found) ↦
        elim (Outcome-cases (handle_request pf pb b s.service.sn (receive c piece))) [
          | inl (h, e) ↦ rw (found, step, e) (lost_to-le at h.enqueued accepted s.lost)
          | inr (x, e) ↦ rw (found, step, e) tt
        ]
  ]
  step-KeepsLost (serves i) s at = elim (Option-cases (get_elem? s.outstanding i)) [
    | inl missing ↦ rw (missing, step) (omega arith)
    | inr (ev, got) ↦ elim (Outcome-cases (svc handle s.service ev)) [
      | inl (t, e) ↦ rw (got, step, e) (omega arith)
      | inr (x, e) ↦ rw (got, step, e) tt
    ]
  ]
  step-KeepsLost flushes s at =
      elim (Outcome-cases (handle_all_response_event pf pb s.service.response_events s.sessions)) [
        | inl (t, e) ↦ rw (e, step) (omega arith)
        | inr (x, e) ↦ rw (e, step) tt
      ]
  step-KeepsLost (hangs_up b) s at = elim (Option-cases (s.sessions b)) [
    | inl missing ↦ rw (missing, step) (omega arith)
    | inr (c, found) ↦ elim (Outcome-cases (handle_error c)) [
      | inl (k, e) ↦ rw (found, step, e) (omega arith)
      | inr (x, e) ↦ rw (found, step, e) tt
    ]
  ]

  -- What later acts keep of a server: the invariant, and the refused events.
  later-Inv :
      {s t : Server S} (at : ℕ)
      → ServerInv pb s
      → Reach pf pb handle s t
      → ServerInv pb t × (count_for at s.lost ≤ count_for at t.lost)
  later-Inv at inv here = (inv, omega arith)
  later-Inv at inv (next {s} {t} act r enabled e) =
      let (inv', le) = later-Inv at inv r in
      let kept : count_for at s.lost ≤ count_for at t.lost =
        subst (KeepsLost at (count_for at s.lost)) e (step-KeepsLost act s at) in
      (subst (Ends pb) e (step-Inv pf pb handle act s enabled inv'), omega (arith, le, kept))

  -- A session whose request the pool has refused never gets a response: in every server that is
  -- reached from there it still awaits one, and no event of it is with a thread or among the
  -- responses; no session hangs up while it awaits a response.
  pub refused-stuck :
      {m : EventHandlersMap} {handlers : S} {sn : ℕ} {s t : Server S}
      → Reach pf pb handle (started m handlers sn) s
      → (at : ℕ) → 1 ≤ count_for at s.lost
      → Reach pf pb handle s t
      → (awaiting (t.sessions at) ≡ 1)
        × (count_for at t.outstanding ≡ 0)
        × (count_for at t.service.response_events ≡ 0)
  refused-stuck {t = t} r at refused later =
      let (inv, le) = later-Inv at (Reach-Inv pf pb handle r) later in
      let one = awaiting_le (t.sessions at) in
      (
        omega (arith, le, refused, inv.tally at, one),
        omega (arith, le, refused, inv.tally at, one),
        omega (arith, le, refused, inv.tally at, one),
      )
