-- ===== src/Assembled/Matches.antt =====
-- Every move of the server with its pool, of src/, against the server whose pool is a list of events.
use shared_bike.Base.{
  sym, ℕ, ◌≡◌, refl, ap, ◌∙◌, subst, inl, inr, Option-cases, none, some, true, [], arith, get_elem?,
  Outcome-cases, ok, fault, missing_return, Fault, Bytes, ◌==◌, if◌then◌else◌, ◌≢◌,
}
use shared_bike.Protobuf.{Protobuf}
use shared_bike.Dispatch.Process.{Handle}
use shared_bike.Network.{Platform, Connection, Handled, listener_cb, handle_request}
use shared_bike.Network.Request.Chunks.{receive}
use shared_bike.Network.Response.{handle_error, handle_all_response_event, left_by}
use shared_bike.ThreadPool.{
  null, PostAnswers, CycleAnswers, Pc, looping, asleep, running, stopped, stopped_asleep,
}
use shared_bike.ThreadPool.Queue.{accepts}
use shared_bike.ThreadPool.System
use shared_bike.Server.{Server, Act, put, after_request, enqueued_to, step}
use shared_bike.Server.Invariant.{ServerInv, Ends, awaiting}
use shared_bike.Server.Steps.{Enabled, step-Inv}
use shared_bike.Assembled.{Assembled, Move, run_task, post, move}
use shared_bike.Assembled.Posts.{enqueues-Posted}
use shared_bike.Assembled.Refines.{Implements, post-Implements, same-Implements}
use shared_bike.Assembled.Steps.{CanMove, Follows, Matches, idle_turn, serving_turn}

module _ {S : Type 0} (pf : Platform) (pb : Protobuf) (handle : Handle S) where
  module _ {w : Assembled S} {s : Server S} (imp : Implements w s) (inv : ServerInv pb s) where
    -- Where the server of the list has no way out but the missing return.
    faults :
        (act : Act) (x : Fault)
        → Enabled pf pb handle act s
        → step pf pb handle act s ≡ fault x
        → x ≡ missing_return
    faults act x enabled e = subst (Ends pb) e (step-Inv pf pb handle act s enabled inv)

    connects-Matches :
        (at fd bev : ℕ) (ip : Bytes)
        → Enabled pf pb handle (Act.connects at fd bev ip) s
        → Matches pf pb handle (Move.connects at fd bev ip) w s
    unfolding move step
    connects-Matches at fd bev ip enabled = elim (Outcome-cases (listener_cb fd bev ip)) [
      | inl (c, e) ↦ inl (
        record w { sessions = put at (some c) w.sessions },
        record s { sessions = put at (some c) s.sessions },
        rw (e, move),
        inr (Act.connects at fd bev ip, enabled, rw (e, step)),
        same-Implements imp (put at (some c) w.sessions) w.service
            (record s { sessions = put at (some c) s.sessions }) (ap (put at (some c)) imp.sessions)
            imp.service refl,
      )
      | inr (x, e) ↦
          inr
            (rw (e, move) (ap fault (faults (Act.connects at fd bev ip) x enabled (rw (e, step)))))
    ]

    flushes-Matches : Matches pf pb handle Move.flushes w s
    unfolding move step
    flushes-Matches =
        let same : handle_all_response_event pf pb s.service.response_events s.sessions
            ≡ handle_all_response_event pf pb w.service.response_events w.sessions =
          λ k. handle_all_response_event pf pb (imp.service k).response_events (imp.sessions k) in
        elim (Outcome-cases
          (handle_all_response_event pf pb w.service.response_events w.sessions)) [
            | inl (ss, e) ↦
                let v = record (w.service) { response_events = [] } in
                let t = record s {
                  sessions = ss;
                  service = record (s.service) { response_events = [] };
                } in
                inl (
                  record w { sessions = ss; service = v },
                  t,
                  rw (e, move),
                  inr (Act.flushes, tt, rw (same, e, step)),
                  same-Implements imp ss v t refl
                      (λ k. record (imp.service k) { response_events = [] }) refl,
                )
            | inr (x, e) ↦
                inr (rw (e, move) (ap fault (faults Act.flushes x tt (rw (same, e, step)))))
          ]

    -- The responses that go out are the same.
    pub flushes-same :
        (t : Server S)
        → step pf pb handle Act.flushes s ≡ ok t
        → (v : Assembled S) × (move pf pb handle Move.flushes w ≡ ok v)
          × (v.sessions ≡ t.sessions)
          × (v.service ≡ t.service)
    unfolding move step
    flushes-same t e =
        let same : handle_all_response_event pf pb s.service.response_events s.sessions
            ≡ handle_all_response_event pf pb w.service.response_events w.sessions =
          λ k. handle_all_response_event pf pb (imp.service k).response_events (imp.sessions k) in
        elim (Outcome-cases
          (handle_all_response_event pf pb w.service.response_events w.sessions)) [
            | inl (ss, sent) ↦
                let v = record (w.service) { response_events = [] } in
                let t' = record s {
                  sessions = ss;
                  service = record (s.service) { response_events = [] };
                } in
                let e' : ok t' ≡ ok t = rw (same, sent) at e in
                let u : t' ≡ t = ground arith in
                (
                  record w { sessions = ss; service = v },
                  rw (sent, move),
                  ap (λ z. z.sessions) u,
                  (λ k. record (sym imp.service k) { response_events = [] })
                      ∙ ap (λ z. z.service) u,
                )
            | inr (x, bad) ↦ let clash : fault x ≡ ok t = rw (same, bad) at e in absurd (cc)
          ]

    hangs_up-Matches :
        (at : ℕ) → awaiting (s.sessions at) ≡ 0 → Matches pf pb handle (Move.hangs_up at) w s
    unfolding move step
    hangs_up-Matches at quiet = elim (Option-cases (w.sessions at)) [
      | inl missing ↦ inl (w, s, rw (missing, move), inl refl, imp)
      | inr (c, found) ↦
          let found' : s.sessions at ≡ some c = ap (λ ss. ss at) imp.sessions ∙ found in
          elim (Outcome-cases (handle_error c)) [
            | inl (cb, e) ↦
                let t = record s { sessions = put at (left_by cb) s.sessions } in
                inl (
                  record w { sessions = put at (left_by cb) w.sessions },
                  t,
                  rw (found, move, e),
                  inr (Act.hangs_up at, quiet, rw (found', step, e)),
                  same-Implements imp (put at (left_by cb) w.sessions) w.service t
                      (ap (put at (left_by cb)) imp.sessions) imp.service refl,
                )
            | inr (x, e) ↦ inr (
                rw (found, move, e)
                  (ap fault (faults (Act.hangs_up at) x quiet (rw (found', step, e)))))
          ]
    ]

    -- The bytes that arrive complete no event, or one that is posted.
    handled-Matches :
        (at : ℕ) (piece : Bytes) (event_at fresh : ℕ) (a : PostAnswers) (c : Connection)
        (h : Handled)
        → w.sessions at ≡ some c
        → handle_request pf pb at w.service.sn (receive c piece) ≡ ok h
        → fresh ≢ null
        → w.system.pool.cells fresh ≡ none
        → w.events event_at ≡ none
        → Matches pf pb handle (Move.arrives at piece event_at fresh a) w s
    unfolding move step post
    handled-Matches at piece event_at fresh a c h found e ne new unused =
        let b = accepts a w.system.pool in
        let found' : s.sessions at ≡ some c = ap (λ ss. ss at) imp.sessions ∙ found in
        let e' : handle_request pf pb at s.service.sn (receive c piece) ≡ ok h =
          ap (λ v. handle_request pf pb at v.sn (receive c piece)) imp.service ∙ e in
        let follows : Follows pf pb handle s (after_request at b h s) =
          inr (Act.arrives at piece b, tt, rw (found', step, e')) in
        let ss = put at (left_by h.callback) w.sessions in
        let v = record (w.service) { sn = h.sn } in
        let ss_eq : put at (left_by h.callback) s.sessions ≡ ss =
          ap (put at (left_by h.callback)) imp.sessions in
        let v_eq : record (s.service) { sn = h.sn } ≡ v =
          λ k. record (imp.service k) { sn = h.sn } in
        elim (Option-cases (h.enqueued)) [
          | inl no_event ↦ inl (
            record w { sessions = ss; service = v },
            after_request at b h s,
            rw (found, e, move, no_event, post),
            follows,
            same-Implements imp ss v (after_request at b h s) ss_eq v_eq
                (ap (λ o. enqueued_to o b s.outstanding) no_event),
          )
          | inr (ev, has_event) ↦
              let (r, posted) =
                enqueues-Posted w.system imp.queue fresh event_at a ne new imp.pool in
              inl (
                record w {
                  sessions = ss;
                  service = v;
                  system = record (w.system) { pool = r };
                  events = λ p. if p == event_at then some ev else w.events p;
                },
                after_request at b h s,
                rw (found, e, move, has_event, post, posted.steps),
                follows,
                post-Implements imp fresh event_at a r ev posted new unused ss v
                    (after_request at b h s) ss_eq v_eq
                    (ap (λ o. enqueued_to o b s.outstanding) has_event),
              )
        ]

    arrives-Matches :
        (at : ℕ) (piece : Bytes) (event_at fresh : ℕ) (a : PostAnswers)
        → fresh ≢ null
        → w.system.pool.cells fresh ≡ none
        → w.events event_at ≡ none
        → Matches pf pb handle (Move.arrives at piece event_at fresh a) w s
    unfolding move step
    arrives-Matches at piece event_at fresh a ne new unused = elim (Option-cases (w.sessions at)) [
      | inl missing ↦ inl (w, s, rw (missing, move), inl refl, imp)
      | inr (c, found) ↦
          elim (Outcome-cases (handle_request pf pb at w.service.sn (receive c piece))) [
            | inl (h, e) ↦ handled-Matches at piece event_at fresh a c h found e ne new unused
            | inr (x, e) ↦
                let found' : s.sessions at ≡ some c = ap (λ ss. ss at) imp.sessions ∙ found in
                let e' : handle_request pf pb at s.service.sn (receive c piece) ≡ fault x =
                  ap (λ v. handle_request pf pb at v.sn (receive c piece)) imp.service ∙ e in
                inr (
                  rw (found, e, move)
                    (ap fault (faults (Act.arrives at piece true) x tt (rw (found', e', step)))))
          ]
    ]

    takes_turn-Matches :
        (i : ℕ) (a : CycleAnswers)
        → CanMove pf pb handle (Move.takes_turn i a) w
        → Matches pf pb handle (Move.takes_turn i a) w s
    unfolding move run_task System.step
    takes_turn-Matches i a can = elim (Option-cases (get_elem? w.system.pcs i)) [
      | inl missing ↦ inl (w, s, rw (missing, move, run_task, System.step), inl refl, imp)
      | inr (pc, at) ↦ by_pc pc at
    ]
      where
        by_pc :
            (pc : Pc)
            → get_elem? w.system.pcs i ≡ some pc
            → Matches pf pb handle (Move.takes_turn i a) w s
        by_pc looping at = idle_turn pf pb handle imp i a looping at refl (λ n. refl)
        by_pc asleep at = idle_turn pf pb handle imp i a asleep at refl (λ n. refl)
        by_pc stopped at = idle_turn pf pb handle imp i a stopped at refl (λ n. refl)
        by_pc stopped_asleep at = idle_turn pf pb handle imp i a stopped_asleep at refl (λ n. refl)
        by_pc (running t) at =
            let (_, ev, j, w', u, _, _, got, (rsp, st, sn, done, reply), moved, stepped, imp') =
              serving_turn pf pb handle imp i a t at can inv.open_ in
            inl
              (w', u, moved, inr (Act.serves j, (ev, rsp, st, sn, got, done, reply), stepped), imp')

    -- A move that can be made is one act of the server of the list, or none, or ends in the missing
    -- return of `parseEvent`.
    pub move-Matches : (m : Move) → CanMove pf pb handle m w → Matches pf pb handle m w s
    move-Matches (Move.connects at fd bev ip) (new, short) =
        connects-Matches at fd bev ip (ap (λ ss. ss at) imp.sessions ∙ new, short)
    move-Matches (Move.arrives at piece event_at fresh a) (ne, new, unused) =
        arrives-Matches at piece event_at fresh a ne new unused
    move-Matches (Move.takes_turn i a) can = takes_turn-Matches i a can
    move-Matches Move.flushes can = flushes-Matches
    move-Matches (Move.hangs_up at) quiet =
        hangs_up-Matches at (ap (λ ss. awaiting (ss at)) imp.sessions ∙ quiet)
