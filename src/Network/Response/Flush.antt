-- ===== src/Network/Response/Flush.antt =====
-- `handleAllResponseEvent` of src/DispatchMsgService.cc over the whole queue of responses.
use shared_bike.Base.{
  ℕ, ◌+◌, ◌^◌, ◌<◌, ◌≡◌, refl, sym, ap, subst, ◌∙◌, ◌⊎◌, inl, inr, Bool, true, false, Option, none,
  some, some_inj, Option-cases, List, [], ◌∷◌, ◌++◌, append-nil, append_assoc, ◌==◌, ==_iff,
  Bool-cases, ◌||◌, if◌then◌else◌, arith, Bytes, Outcome, ok, Fault, fault, null_deref,
}
use shared_bike.Wire.{frame}
use shared_bike.Protobuf.{Protobuf}
use shared_bike.Event.{
  Event, EventId, event_id, get_mobile_code_rsp, login_rsp, byte_size, serialized,
}
use shared_bike.Session.{ConnectSession, ss_request, ms_read_header, session_reset}
use shared_bike.Network.{Platform, Connection, Callback}
use shared_bike.Network.Response.{
  Sessions, on_session, assemble_response, handle_response_event, handle_all_response_event,
  bufferevent_write,
}
use shared_bike.Network.Response.Assemble.{assemble_response_lem}

-- A response with a message, that fits the 32-bit length.
pub record IsReply (pb : Protobuf) (ev : Event) : Type 0 where
  pub eid : (ev.eid ≡ event_id get_mobile_code_rsp) ⊎ (ev.eid ≡ event_id login_rsp)
  pub small : 10 + byte_size pb ev.body < 2 ^ 32

-- The event's session exists.
pub record IsAddressed (ss : Sessions) (ev : Event) : Type 0 where
  pub at : ℕ
  pub connection : Connection
  pub args : ev.args ≡ some at
  pub found : ss at ≡ some connection

abbrev pub AllReady : Protobuf → Sessions → List Event → Type 0
AllReady pb ss [] = Unit {0}
AllReady pb ss (ev ∷ evs) = IsReply pb ev × IsAddressed ss ev × AllReady pb ss evs

abbrev pub is_for : ℕ → Option ℕ → Bool
is_for at none = false
is_for at (some a) = at == a

-- The frames of the events of one session, in order.
abbrev pub frames_for : Protobuf → ℕ → List Event → Bytes
frames_for pb at [] = []
frames_for pb at (ev ∷ evs) =
    if is_for at ev.args
    then frame ev.eid (serialized pb ev.body) ++ frames_for pb at evs
    else frames_for pb at evs

abbrev pub any_for : ℕ → List Event → Bool
any_for at [] = false
any_for at (ev ∷ evs) = is_for at ev.args || any_for at evs

-- The session reads the next header.
pub record IsReset (cs cs' : ConnectSession) : Type 0 where
  pub session_stat : cs'.session_stat ≡ ss_request
  pub req_stat : cs'.req_stat ≡ ms_read_header
  pub read_buf : cs'.read_buf ≡ none
  pub write_buf : cs'.write_buf ≡ none
  pub read_header_len : cs'.read_header_len ≡ 0
  pub header : cs'.header ≡ cs.header

-- What a session that was or was not answered has become.
abbrev pub After : Bool → ConnectSession → ConnectSession → Type 0
After false cs cs' = cs' ≡ cs
After true cs cs' = IsReset cs cs'

-- A connection after its response `ev`.
abbrev replied : Protobuf → Event → Connection → Connection
replied pb ev c = record c {
  session = session_reset (record (c.session) { response = some ev });
  output = c.output ++ frame ev.eid (serialized pb ev.body);
}

-- The sessions after the response `ev` to the one at `a`.
abbrev updated : Protobuf → Event → ℕ → Connection → Sessions → Sessions
updated pb ev a c ss = λ b. if b == a then some (replied pb ev c) else ss b

-- What is at an address after the queue: no session if there was none, and else the connection
-- whose output has grown by the frames of its responses.
abbrev pub Answered : Protobuf → List Event → ℕ → Option Connection → Option Connection → Type 0
Answered pb evs at none o = o ≡ none
Answered pb evs at (some c) o =
    (c' : Connection) × (o ≡ some c')
    × (c'.output ≡ c.output ++ frames_for pb at evs)
    × (c'.input ≡ c.input)
    × After (any_for at evs) c.session c'.session

module _ (pf : Platform) (pb : Protobuf) where
  on_session_fault :
      (a : ℕ) (f : Connection → Outcome Callback) (ss : Sessions) (c : Connection) (x : Fault)
      → ss a ≡ some c
      → f c ≡ fault x
      → on_session (some a) f ss ≡ fault x
  unfolding on_session
  on_session_fault a f ss c x found e = rw (found, on_session) (rw e)

  null_write : (n : ℕ) (output : Bytes) → bufferevent_write none n output ≡ fault null_deref
  unfolding bufferevent_write
  null_write n output = refl

  on_session_lem :
      (ev : Event) (i : EventId) (ss : Sessions) (a : ℕ) (c : Connection)
      → ev.eid ≡ event_id i
      → 10 + byte_size pb ev.body < 2 ^ 32
      → ss a ≡ some c
      → on_session (some a) (assemble_response pf pb ev i) ss ≡ ok (updated pb ev a c ss)
  unfolding on_session
  on_session_lem ev i ss a c e small found =
      rw (found, on_session)
        (rw (assemble_response_lem pf pb ev i c small) (λ k. ok (λ b.
          if b == a
          then some (record c {
            session = session_reset (record (c.session) { response = some ev });
            output = c.output ++ frame (sym e k) (serialized pb ev.body);
          })
          else ss b)))

  handle_response_event_lem :
      (ev : Event) (ss : Sessions) (a : ℕ) (c : Connection)
      → IsReply pb ev
      → ev.args ≡ some a
      → ss a ≡ some c
      → handle_response_event pf pb ev ss ≡ ok (updated pb ev a c ss)
  unfolding handle_response_event
  handle_response_event_lem ev ss a c r args found = elim (r.eid) [
    | inl e ↦
        let hit : (ev.eid == event_id get_mobile_code_rsp) ≡ true = ground arith in
        rw hit (
          (λ k. on_session (args k) (assemble_response pf pb ev get_mobile_code_rsp) ss)
          ∙ on_session_lem ev get_mobile_code_rsp ss a c e r.small found)
    | inr e ↦
        let miss : (ev.eid == event_id get_mobile_code_rsp) ≡ false = ground arith in
        let hit : (ev.eid == event_id login_rsp) ≡ true = ground arith in
        rw (miss, hit)
          ((λ k. on_session (args k) (assemble_response pf pb ev login_rsp) ss)
            ∙ on_session_lem ev login_rsp ss a c e r.small found)
  ]

  still-IsAddressed :
      (ev e : Event) (ss : Sessions) (a : ℕ) (c : Connection)
      → IsAddressed ss e
      → IsAddressed (updated pb ev a c ss) e
  still-IsAddressed ev e ss a c ad = elim (Bool-cases (ad.at == a)) [
    | inl same ↦ record {
      at = ad.at;
      connection = replied pb ev c;
      args = ad.args;
      found = rw same;
    }
    | inr other ↦ record {
      at = ad.at;
      connection = ad.connection;
      args = ad.args;
      found = rw other (ad.found);
    }
  ]

  still_ready :
      (ev : Event) (evs : List Event) (ss : Sessions) (a : ℕ) (c : Connection)
      → AllReady pb ss evs
      → AllReady pb (updated pb ev a c ss) evs
  still_ready ev [] ss a c all = tt
  still_ready ev (e ∷ evs) ss a c (reply, ad, all) =
      (reply, still-IsAddressed ev e ss a c ad, still_ready ev evs ss a c all)

  abbrev Sent : List Event → Sessions → Sessions → ℕ → Connection → Type 0
  Sent evs ss ss' at c = Answered pb evs at (some c) (ss' at)

  After-IsReset :
      (b : Bool) (ev : Event) (cs cs' : ConnectSession)
      → After b (session_reset (record cs { response = some ev })) cs'
      → IsReset cs cs'
  unfolding session_reset
  After-IsReset false ev cs cs' e = record {
    session_stat = ap (λ (s : ConnectSession). s.session_stat) e;
    req_stat = ap (λ (s : ConnectSession). s.req_stat) e;
    read_buf = ap (λ (s : ConnectSession). s.read_buf) e;
    write_buf = ap (λ (s : ConnectSession). s.write_buf) e;
    read_header_len = ap (λ (s : ConnectSession). s.read_header_len) e;
    header = ap (λ (s : ConnectSession). s.header) e;
  }
  After-IsReset true ev cs cs' r = record {
    session_stat = r.session_stat;
    req_stat = r.req_stat;
    read_buf = r.read_buf;
    write_buf = r.write_buf;
    read_header_len = r.read_header_len;
    header = r.header;
  }

  answered_step :
      (ev : Event) (evs : List Event) (ss ss' : Sessions) (a : ℕ) (ca : Connection)
      → ev.args ≡ some a
      → ss a ≡ some ca
      → ((at : ℕ) (c : Connection)
          → updated pb ev a ca ss at ≡ some c
          → Sent evs (updated pb ev a ca ss) ss' at c)
      → (at : ℕ) (c : Connection) → ss at ≡ some c
      → Sent (ev ∷ evs) ss ss' at c
  answered_step ev evs ss ss' a ca args found rest at c e = elim (Bool-cases (at == a)) [
    | inl same ↦
        let hit : is_for at ev.args ≡ true = ap (is_for at) args ∙ same in
        let (c', s, out, inp, aft) = rest at (replied pb ev ca) (rw same) in
        let ca_eq : ca ≡ c = some_inj (sym found ∙ (ap ss (sym ((==_iff at a).0 same)) ∙ e)) in
        subst (Sent (ev ∷ evs) ss ss' at) ca_eq (
          c',
          s,
          rw hit (
              out
              ∙ append_assoc ca.output (frame ev.eid (serialized pb ev.body))
                  (frames_for pb at evs)),
          inp,
          rw hit (After-IsReset (any_for at evs) ev ca.session c'.session aft),
        )
    | inr other ↦
        let miss : is_for at ev.args ≡ false = ap (is_for at) args ∙ other in
        let (c', s, out, inp, aft) = rest at c (rw other e) in
        (c', s, rw miss out, inp, rw miss aft)
  ]

  updated-none :
      (ev : Event) (ss : Sessions) (a : ℕ) (ca : Connection) (at : ℕ)
      → ss a ≡ some ca
      → ss at ≡ none
      → updated pb ev a ca ss at ≡ none
  updated-none ev ss a ca at found e = elim (Bool-cases (at == a)) [
    | inl same ↦
        let clash : none ≡ some ca = sym e ∙ (ap ss ((==_iff at a).0 same) ∙ found) in absurd (cc)
    | inr other ↦ rw other e
  ]

  replies-Sent :
      (evs : List Event) (ss : Sessions)
      → AllReady pb ss evs
      → (ss' : Sessions) × (handle_all_response_event pf pb evs ss ≡ ok ss')
        × ((at : ℕ) (c : Connection) → ss at ≡ some c → Sent evs ss ss' at c)
        × ((at : ℕ) → ss at ≡ none → ss' at ≡ none)
  unfolding handle_all_response_event
  replies-Sent [] ss all =
      (ss, refl, (λ at c e. (c, e, sym (append-nil c.output), refl, refl)), λ at e. e)
  replies-Sent (ev ∷ evs) ss (reply, ad, all) =
      let a = ad.at in
      let ca = ad.connection in
      let (ss', r, each, gone) =
        replies-Sent evs (updated pb ev a ca ss) (still_ready ev evs ss a ca all) in
      (
        ss',
        rw (handle_response_event_lem ev ss a ca reply ad.args ad.found) r,
        answered_step ev evs ss ss' a ca ad.args ad.found each,
        λ at e. gone at (updated-none ev ss a ca at ad.found e),
      )

  -- Where every queued response has a message that fits the length field, and an open session, the
  -- loop sends them all: each session's output grows by the frames of its own responses in the
  -- order of the queue and by nothing else, its input stays, a session that is answered reads the
  -- next header, and the others stay as they are. No session opens or closes.
  pub flush-replies :
      (evs : List Event) (ss : Sessions)
      → AllReady pb ss evs
      → (ss' : Sessions) × (handle_all_response_event pf pb evs ss ≡ ok ss')
        × ((at : ℕ) → Answered pb evs at (ss at) (ss' at))
  flush-replies evs ss all =
      let (ss', r, each, gone) = replies-Sent evs ss all in
      (
        ss',
        r,
        λ at. elim (Option-cases (ss at)) [
          | inl e ↦ rw e (gone at e)
          | inr (c, e) ↦ rw e (each at c e)
        ],
      )
