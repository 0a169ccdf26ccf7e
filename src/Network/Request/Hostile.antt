-- ===== src/Network/Request/Hostile.antt =====
-- `handle_request` of src/NetworkInterface.cc on any bytes whatever.
use shared_bike.Base.{
  Option-cases, ℕ, ◌-◌, ◌≤◌, ◌≡◌, refl, sym, ap, subst, ◌∙◌, ◌⊎◌, true, false, Bool-cases, Option,
  none, some, [], ◌++◌, arith, ◌==◌, ltb, ◌||◌, Bytes, bytes_eq, length, length-append, length-take,
  take, drop, inl, inr, Outcome, Outcome-cases, ok, fault, missing_return, ◌>>=◌,
}
use shared_bike.Wire.{message_header, message_header_len, max_msg_len, load_u16, load_u32}
use shared_bike.Protobuf.{Protobuf}
use shared_bike.Event.{Event, event_id, get_mobile_code_req, login_req}
use shared_bike.Session.{ConnectSession, ss_request, ss_response}
use shared_bike.Dispatch.Parse.{parse_event}
use shared_bike.Network.{
  Platform, Connection, Callback, opened, closed, Handled, is_request, is_reading_header,
  is_reading_message, close_connection, accept_header, read_header, accept_message, read_message,
  handle_message, handle_request,
}
use shared_bike.Network.Request.Header.{InHeader, InBody, read_header_lem}
use shared_bike.Network.Request.Body.{IsAnswering, read_message_lem}

-- What a session is doing between two callbacks.
pub data Doing (cs : ConnectSession) : Type 0 where
  reads_header : (h : Bytes) → InHeader cs h → Doing cs
  reads_body :
      (eid : ℕ) (body b : Bytes) → InBody eid body cs b → length body ≤ max_msg_len → Doing cs
  awaits : IsAnswering cs → Doing cs

-- A session that is in one of these, with its header's 11 chars.
pub record IsSound (cs : ConnectSession) : Type 0 where
  pub doing : Doing cs
  pub header : length cs.header ≡ 11

-- The connection `c` after a callback that posts this event. A connection closes only while it
-- reads a request, an event is posted as the session turns from reading to awaiting its response,
-- and carries the session's address; a callback that posts none leaves the session's status.
abbrev pub SafeCallback : ℕ → Connection → Callback → Option Event → Type 0
SafeCallback self c closed none = c.session.session_stat ≡ ss_request
SafeCallback self c closed (some ev) = ⊥
SafeCallback self c (opened c') none =
    IsSound c'.session × (c'.session.session_stat ≡ c.session.session_stat) × (c'.output ≡ c.output)
SafeCallback self c (opened c') (some ev) =
    IsSound c'.session
    × (c.session.session_stat ≡ ss_request)
    × (c'.session.session_stat ≡ ss_response)
    × (c'.output ≡ c.output)
    × (ev.args ≡ some self)

-- The one undefined behaviour that is left is the missing return of `parseEvent`.
abbrev pub SafeEnd : ℕ → Connection → Outcome Handled → Type 0
SafeEnd self c (ok h) = SafeCallback self c h.callback h.enqueued
SafeEnd self c (fault x) = x ≡ missing_return

abbrev ParseEnd : Outcome (Option Event × ℕ) → Type 0
ParseEnd (ok r) = Unit {0}
ParseEnd (fault x) = x ≡ missing_return

parse_event-end :
    (pb : Protobuf) (msg : Option Bytes) (len eid sn : ℕ) → ParseEnd (parse_event pb msg len eid sn)
unfolding parse_event
parse_event-end pb none len eid sn = tt
parse_event-end pb (some msg) len eid sn = elim (Bool-cases (eid == event_id get_mobile_code_req)) [
  | inl code ↦ rw code (elim (Option-cases (pb.mobile_request.parse (take len msg))) [
    | inl bad ↦ rw bad refl
    | inr (m, good) ↦ rw good tt
  ])
  | inr other ↦ rw other (elim (Bool-cases (eid == event_id login_req)) [
    | inl login ↦ rw login (elim (Option-cases (pb.login_request.parse (take len msg))) [
      | inl bad ↦ rw bad refl
      | inr (m, good) ↦ rw good tt
    ])
    | inr unknown ↦ rw unknown tt
  ])
]

module _ (pf : Platform) (pb : Protobuf) (self sn : ℕ) where
  accept_message-end :
      (c : Connection)
      → length c.session.header ≡ 11
      → c.session.session_stat ≡ ss_request
      → SafeEnd self c (accept_message pb self sn c)
  unfolding accept_message close_connection
  accept_message-end c size stat =
      elim (Outcome-cases
        (parse_event pb c.session.read_buf c.session.read_msg_len c.session.eid sn)) [
          | inr (x, e) ↦
              rw (e, accept_message)
                (subst ParseEnd e
                  (parse_event-end pb c.session.read_buf c.session.read_msg_len c.session.eid sn))
          | inl ((none, sn'), e) ↦ rw (e, accept_message) stat
          | inl ((some ev, sn'), e) ↦
              rw (e, accept_message)
                (
                  record {
                    doing =
                        awaits
                          (record { session_stat = refl; read_buf = refl; read_msg_len = refl });
                    header = size;
                  },
                  stat,
                  refl,
                  refl,
                  refl,
                )
        ]

  read_message-end :
      (c : Connection) (eid : ℕ) (body b : Bytes)
      → length c.session.header ≡ 11
      → InBody eid body c.session b
      → length body ≤ max_msg_len
      → SafeEnd self c (read_message pf pb self sn c)
  read_message-end c eid body b size st small =
      let got = take (length body - length b) c.input in
      let (buf, held, result) = read_message_lem pf pb self sn c eid body b c.input st refl small in
      elim (Bool-cases (length body == length (b ++ got))) [
        | inl full ↦ rw (result, full) (accept_message-end _ size st.session_stat)
        | inr part ↦
            rw (result, part)
              (
                record {
                  doing =
                      reads_body eid body (b ++ got)
                        (record {
                          session_stat = st.session_stat;
                          req_stat = st.req_stat;
                          eid_eq = st.eid_eq;
                          msg_len = st.msg_len;
                          len = refl;
                          short = ground (
                            arith,
                            part,
                            length-append b got,
                            length-take (length body - length b) c.input,
                            st.short,
                          );
                          buf = buf;
                          read_buf = refl;
                          buffer = held;
                        })
                        small;
                  header = size;
                },
                refl,
                refl,
              )
      ]

-- What the first half of `handle_request` leaves of a connection that reads a header.
abbrev HeaderEnd : Connection → Outcome Callback → Type 0
HeaderEnd c (fault x) = ⊥
HeaderEnd c (ok closed) = Unit {0}
HeaderEnd c (ok (opened c')) =
    (length c'.session.header ≡ 11)
    × (c'.output ≡ c.output)
    × (((h : Bytes) × InHeader c'.session h)
        ⊎ ((eid : ℕ) × (body : Bytes) × InBody eid body c'.session []
            × (length body ≤ max_msg_len)))

accept_header-end :
    (pf : Platform) (c : Connection)
    → length c.session.header ≡ 11
    → c.session.session_stat ≡ ss_request
    → HeaderEnd c (accept_header pf c)
unfolding accept_header close_connection
accept_header-end pf c size stat =
    let len = load_u32 (drop 6 c.session.header) in
    elim (Bool-cases (bytes_eq (take 4 c.session.header) message_header)) [
      | inr bad ↦ rw (bad, accept_header) tt
      | inl magic ↦ elim (Bool-cases (ltb len 1 || ltb max_msg_len len)) [
        | inl out ↦ rw (magic, accept_header, out) tt
        | inr fits ↦
            let filled = pf.length-new_chars len in
            let some_bytes : 1 ≤ len = ground (arith, fits) in
            let few : len ≤ max_msg_len = ground (arith, fits) in
            rw (magic, accept_header, fits)
              (
                size,
                refl,
                inr (
                  load_u16 (drop 4 c.session.header),
                  pf.new_chars len,
                  record {
                    session_stat = stat;
                    req_stat = refl;
                    eid_eq = refl;
                    msg_len = sym filled;
                    len = refl;
                    short = omega (arith, filled, some_bytes);
                    buf = pf.new_chars len;
                    read_buf = refl;
                    buffer = record { size_eq = refl; prefix = refl };
                  },
                  omega (arith, filled, few),
                ),
              )
      ]
    ]

read_header-end :
    (pf : Platform) (c : Connection) (h : Bytes)
    → InHeader c.session h
    → HeaderEnd c (read_header pf c)
read_header-end pf c h st =
    let got = take (10 - length h) c.input in
    let (header, held, result) = read_header_lem pf c h c.input st refl in
    elim (Bool-cases (length (h ++ got) == message_header_len)) [
      | inl full ↦ rw (result, full) (accept_header-end pf _ held.size_eq st.session_stat)
      | inr part ↦
          rw (result, part)
            (
              held.size_eq,
              refl,
              inl (
                h ++ got,
                record {
                  session_stat = st.session_stat;
                  req_stat = st.req_stat;
                  len = refl;
                  short = ground (
                    arith,
                    part,
                    length-append h got,
                    length-take (10 - length h) c.input,
                    st.short,
                  );
                  buffer = held;
                },
              ),
            )
    ]

module _ (pf : Platform) (pb : Protobuf) (self sn : ℕ) where
  body-end :
      (c : Connection) (eid : ℕ) (body b : Bytes)
      → length c.session.header ≡ 11
      → InBody eid body c.session b
      → length body ≤ max_msg_len
      → SafeEnd self c (handle_message pf pb self sn (opened c))
  unfolding handle_message
  body-end c eid body b size st small =
      let reading : is_reading_message c.session.req_stat ≡ true =
        ap is_reading_message st.req_stat in
      elim (Bool-cases (ltb 0 (length c.input))) [
        | inl more ↦
            rw (reading, handle_message, more)
              (read_message-end pf pb self sn c eid body b size st small)
        | inr empty ↦
            rw (reading, handle_message, empty)
              (record { doing = reads_body eid body b st small; header = size }, refl, refl)
      ]

  -- The end of the whole callback from that of its second half, where the first kept the output.
  from_half :
      (c c' : Connection) (o : Outcome Handled)
      → c.session.session_stat ≡ ss_request
      → c'.session.session_stat ≡ ss_request
      → c'.output ≡ c.output
      → SafeEnd self c' o
      → SafeEnd self c o
  from_half c c' (fault x) a b e s = s
  from_half c c' (ok h) a b e s = callback h.callback h.enqueued s
    where
      callback :
          (k : Callback) (ev : Option Event) → SafeCallback self c' k ev → SafeCallback self c k ev
      callback closed none s = a
      callback closed (some ev) s = s
      callback (opened d) none (sound, stat, out) = (sound, stat ∙ (b ∙ sym a), out ∙ e)
      callback (opened d) (some ev) (sound, _, after, out, to) = (sound, a, after, out ∙ e, to)

  header-end :
      (c : Connection) (o : Outcome Callback)
      → c.session.session_stat ≡ ss_request
      → HeaderEnd c o
      → SafeEnd self c (o >>= handle_message pf pb self sn)
  unfolding handle_message
  header-end c (fault x) stat e = absurd e
  header-end c (ok closed) stat e = stat
  header-end c (ok (opened c')) stat (size, out, inl (h, st)) =
      let other : is_reading_message c'.session.req_stat ≡ false =
        ap is_reading_message st.req_stat in
      rw other
        (record { doing = reads_header h st; header = size }, st.session_stat ∙ sym stat, out)
  header-end c (ok (opened c')) stat (size, out, inr (eid, body, st, small)) =
      from_half c c' (handle_message pf pb self sn (opened c')) stat st.session_stat out
        (body-end c' eid body [] size st small)

  -- Whatever bytes a client sends, and however they arrive, `handle_request` writes inside the
  -- session's buffers and keeps the session in one of its three states: its only undefined behaviour
  -- is the missing return of `parseEvent`. It posts an event only as the session turns from reading
  -- to awaiting its response, and that event carries the session's address; the connection closes
  -- only while it reads; otherwise the session's status stays. Nothing is written to the client.
  pub handle_request-safe :
      (c : Connection) → IsSound c.session → SafeEnd self c (handle_request pf pb self sn c)
  unfolding handle_request
  handle_request-safe c sound = doing_cases (sound.doing)
    where
      doing_cases : Doing c.session → SafeEnd self c (handle_request pf pb self sn c)
      doing_cases (reads_header h st) =
          let asking : is_request c.session.session_stat ≡ true = ap is_request st.session_stat in
          let reading : is_reading_header c.session.req_stat ≡ true =
            ap is_reading_header st.req_stat in
          rw (asking, handle_request, reading)
            (header-end c (read_header pf c) st.session_stat (read_header-end pf c h st))
      doing_cases (reads_body eid body b st small) =
          let asking : is_request c.session.session_stat ≡ true = ap is_request st.session_stat in
          let reading : is_reading_header c.session.req_stat ≡ false =
            ap is_reading_header st.req_stat in
          rw (asking, handle_request, reading) (body-end c eid body b sound.header st small)
      doing_cases (awaits a) =
          let asking : is_request c.session.session_stat ≡ false = ap is_request a.session_stat in
          rw (asking, handle_request) (sound, refl, refl)
