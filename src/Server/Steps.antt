-- ===== src/Server/Steps.antt =====
-- Every act of the server keeps its invariant.
use shared_bike.Base.{
  ◌^◌, ◌<◌, ◌⊎◌, ℕ, ◌+◌, ◌≤◌, ◌≡◌, refl, sym, ap, ◌∙◌, subst, Bool, true, Bool-cases, inl, inr,
  some, some_inj, Option-cases, none, [], ◌∷◌, ◌++◌, arith, Bytes, length, length-append, replicate,
  get_elem?, Outcome, Outcome-cases, ok, fault, write_chars, leb, blit,
}
use shared_bike.Protobuf.{Protobuf}
use shared_bike.Event.{Event, event_id, get_mobile_code_rsp, login_rsp, byte_size}
use shared_bike.Session.{session_init, session_free, ss_request, ms_read_header}
use shared_bike.Dispatch.Process.{Service, Handle, svc, process, svc-responds}
use shared_bike.Network.{Platform, Connection, listener_cb, close_connection, handle_request}
use shared_bike.Network.Request.Chunks.{receive}
use shared_bike.Network.Request.Hostile.{reads_header, IsSound, SafeEnd, handle_request-safe}
use shared_bike.Network.Response.{Sessions, handle_error, handle_all_response_event}
use shared_bike.Network.Response.Flush.{IsReply, Answered, flush-replies}
use shared_bike.Server.{Server, Act, connects, arrives, serves, flushes, hangs_up, remove, step}
use shared_bike.Server.Count.{
  count_for, count_for-append, count_for-remove, one_for-args, Each, Each-append, Each-remove,
  Each-get,
}
use shared_bike.Server.Invariant.{
  status_awaits, awaiting, HasSession, CanSend, ServerInv, Ends, Each-AllReady,
}
use shared_bike.Server.Arrivals.{put-Inv, request-Inv}
use shared_bike.Server.Flushed.{sound_after, tally_after}

abbrev StaysOpen : {S : Type 0} → Bool → Outcome (Service S) → Type 0
StaysOpen b (ok t) = t.svr_exit ≡ b
StaysOpen b (fault x) = Unit {0}

svc-StaysOpen :
    {S : Type 0} (handle : Handle S) (s : Service S) (ev : Event)
    → StaysOpen s.svr_exit (svc handle s ev)
unfolding svc
svc-StaysOpen handle s ev = elim (Bool-cases (s.svr_exit)) [
  | inl shut ↦ rw (shut, svc) refl
  | inr open_ ↦ elim (Outcome-cases (process handle s.subscribers (some ev) (s.handlers, s.sn))) [
    | inl ((rsp, (st, sn)), r) ↦ rw (open_, svc, r) refl
    | inr (x, r) ↦ rw (open_, svc, r) tt
  ]
]

module _ {S : Type 0} (pf : Platform) (pb : Protobuf) (handle : Handle S) where
  -- What an act needs: memory for a new session and a client address of at most 31 chars, handlers
  -- that answer the event with a message, and that no session hangs up while it awaits a response.
  abbrev pub Enabled : Act → Server S → Type 0
  Enabled (connects at fd bev ip) s = (s.sessions at ≡ none) × (length ip ≤ 31)
  Enabled (arrives at piece accepted) s = Unit {0}
  Enabled (serves i) s =
      (ev : Event) × (rsp : Event) × (st : S) × (sn : ℕ) × (get_elem? s.outstanding i ≡ some ev)
      × (process handle s.service.subscribers (some ev) (s.service.handlers, s.service.sn)
          ≡ ok (some rsp, (st, sn)))
      × IsReply pb rsp
  Enabled flushes s = Unit {0}
  Enabled (hangs_up at) s = awaiting (s.sessions at) ≡ 0

  -- A thread answers one event.
  pub serve-Inv :
      (i : ℕ) (s : Server S) (ev rsp : Event) (st : S) (sn : ℕ)
      → ServerInv pb s
      → get_elem? s.outstanding i ≡ some ev
      → process handle s.service.subscribers (some ev) (s.service.handlers, s.service.sn)
        ≡ ok (some rsp, (st, sn))
      → IsReply pb rsp
      → (t : Service S) × (out : Event) × (svc handle s.service ev ≡ ok t)
        × (out.args ≡ ev.args)
        × (out.eid ≡ rsp.eid)
        × (out.body ≡ rsp.body)
        × (t.response_events ≡ s.service.response_events ++ out ∷ [])
        × (t.handlers ≡ st)
        × ServerInv pb (record s { outstanding = remove s.outstanding i; service = t })
  serve-Inv i s ev rsp st sn inv got done reply =
      let (t, out, e, (args, eid, body), queued, kept, _) =
        svc-responds handle s.service ev (some rsp) st sn inv.open_ done in
      let (at, to) = Each-get HasSession s.outstanding i ev inv.addressed got in
      let sent : CanSend pb out = (
        record {
          eid =
              subst (λ n. (n ≡ event_id get_mobile_code_rsp) ⊎ (n ≡ event_id login_rsp)) (sym eid)
                reply.eid;
          small = subst (λ b. 10 + byte_size pb b < 2 ^ 32) (sym body) reply.small;
        },
        (at, args ∙ to),
      ) in
      (
        t,
        out,
        e,
        args,
        eid,
        body,
        queued,
        kept,
        record {
          sound = inv.sound;
          tally = λ b. omega (
            arith,
            inv.tally b,
            count_for-remove b s.outstanding i ev got,
            ap (count_for b) queued,
            count_for-append b s.service.response_events (out ∷ []),
            one_for-args b ev out args,
          );
          addressed = Each-remove HasSession s.outstanding i inv.addressed;
          replies =
              subst (Each (CanSend pb)) (sym queued)
                (Each-append (CanSend pb) s.service.response_events out inv.replies sent);
          open_ =
              subst (StaysOpen s.service.svr_exit) e (svc-StaysOpen handle s.service ev)
              ∙ inv.open_;
        },
      )

  -- The responses go out.
  pub flush-Inv :
      (s : Server S)
      → ServerInv pb s
      → (ss : Sessions) × (handle_all_response_event pf pb s.service.response_events s.sessions
          ≡ ok ss)
        × ((at : ℕ) → Answered pb s.service.response_events at (s.sessions at) (ss at))
        × ServerInv pb
            (record s { sessions = ss; service = record (s.service) { response_events = [] } })
  flush-Inv s inv =
      let evs = s.service.response_events in
      let (ss, e, each) =
        flush-replies pf pb evs s.sessions
          (Each-AllReady pb s.sessions evs inv.replies (λ at. omega (arith, inv.tally at))) in
      (
        ss,
        e,
        each,
        record {
          sound = λ at. sound_after pb evs at (s.sessions at) (ss at) (each at) (inv.sound at);
          tally = λ at. omega (
            arith,
            tally_after pb evs at (s.sessions at) (ss at)
                (count_for at s.outstanding + count_for at s.lost) (each at)
                (omega (arith, inv.tally at)),
          );
          addressed = inv.addressed;
          replies = tt;
          open_ = inv.open_;
        },
      )

  abbrev first_state : ℕ → ℕ → Bytes → Connection
  first_state fd bev ip = record {
    session = record (session_init fd bev) {
      session_stat = ss_request;
      req_stat = ms_read_header;
      remote_ip = blit (replicate 32 0) 0 (ip ++ 0 ∷ []);
    };
    input = [];
    output = [];
  }

  connected :
      (fd bev : ℕ) (ip : Bytes)
      → length ip ≤ 31
      → (c : Connection) × (listener_cb fd bev ip ≡ ok c)
        × IsSound c.session
        × (c.session.session_stat ≡ ss_request)
  unfolding listener_cb write_chars session_init
  connected fd bev ip short =
      let fits : leb (0 + length (ip ++ 0 ∷ [])) 32 ≡ true =
        ground (arith, length-append ip (0 ∷ [])) in
      (
        first_state fd bev ip,
        rw (listener_cb, fits) refl,
        record {
          doing = reads_header [] (record {
            session_stat = refl;
            req_stat = refl;
            len = refl;
            short = omega arith;
            buffer = record { size_eq = refl; prefix = refl };
          });
          header = refl;
        },
        refl,
      )

  -- An act ends in a server of the invariant, or in the missing return of `parseEvent`.
  pub step-Inv :
      (act : Act) (s : Server S)
      → Enabled act s
      → ServerInv pb s
      → Ends pb (step pf pb handle act s)
  unfolding step
  step-Inv (connects at fd bev ip) s (new, short) inv =
      let (c, e, sound, stat) = connected fd bev ip short in
      rw (e, step)
        (put-Inv pb s inv at (some c) s.outstanding s.lost s.service.sn
          (λ d h. subst (λ (x : Connection). IsSound x.session) (some_inj h) sound) (λ b h. refl)
          (inv.tally at ∙ (ap awaiting new ∙ ap status_awaits (sym stat))) inv.addressed)
  step-Inv (arrives at piece accepted) s en inv = elim (Option-cases (s.sessions at)) [
    | inl missing ↦ rw (missing, step) inv
    | inr (c, found) ↦
        let sound = inv.sound at c found in
        let safe =
          handle_request-safe pf pb at s.service.sn (receive c piece)
            (record { doing = sound.doing; header = sound.header }) in
        elim (Outcome-cases (handle_request pf pb at s.service.sn (receive c piece))) [
          | inr (x, e) ↦ rw (found, step, e) (subst (SafeEnd at (receive c piece)) e safe)
          | inl (h, e) ↦
              rw (found, step, e)
                (request-Inv pb s inv at accepted c piece h.callback h.enqueued h.sn found
                  (subst (SafeEnd at (receive c piece)) e safe))
        ]
  ]
  step-Inv (serves i) s (ev, rsp, st, sn, got, done, reply) inv =
      let (t, out, e, _, _, _, _, _, inv') = serve-Inv i s ev rsp st sn inv got done reply in
      rw (got, step, e) inv'
  step-Inv flushes s en inv = let (ss, e, _, inv') = flush-Inv s inv in rw (e, step) inv'
  step-Inv (hangs_up at) s quiet inv = elim (Option-cases (s.sessions at)) [
    | inl missing ↦ rw (missing, step) inv
    | inr (c, found) ↦
        rw (found, step)
          (unfold handle_error close_connection session_free in
            put-Inv pb s inv at none s.outstanding s.lost s.service.sn (λ d e. cc) (λ b h. refl)
              (inv.tally at ∙ quiet) inv.addressed)
  ]
