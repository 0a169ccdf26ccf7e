-- ===== src/Network/Request/Body.antt =====
-- The second half of `handle_request` of src/NetworkInterface.cc: the message, in any pieces.
use shared_bike.Base.{
  ℕ, ◌+◌, ◌-◌, ◌≤◌, ◌<◌, ◌≡◌, refl, sym, ap, subst, ◌∙◌, true, false, Option, none, some, [], ◌∷◌,
  ◌++◌, arith, ◌==◌, ltb, if◌then◌else◌, Bytes, length, length-append, length-take, take, split_at,
  Outcome-cases, Bool-cases, fault, inl, inr, append-nil, drop, take_all, drop_all, Outcome, ok,
}
use shared_bike.Wire.{max_msg_len}
use shared_bike.Protobuf.{Protobuf}
use shared_bike.Event.{Event}
use shared_bike.Session.{ConnectSession, ss_response, ms_read_message}
use shared_bike.Dispatch.Parse.{parse_event}
use shared_bike.Network.{
  Platform, Connection, opened, closed, Handled, handled, add_u32, sub_u32, close_connection,
  accept_message, read_message, write_read_buf, handle_message, is_reading_message,
}
use shared_bike.Network.Request.Reads.{read-take, Holds, write-Holds}
use shared_bike.Network.Request.Header.{InBody}

-- What a complete message comes to, by its event: it is posted with the session at `self` and the
-- connection `c` stays open, or the connection is closed where it parses to no event.
abbrev pub outcome_of : ℕ → Outcome (Option Event × ℕ) → Connection → Outcome Handled
outcome_of self (fault x) c = fault x
outcome_of self (ok (none, sn)) c = ok (handled closed sn)
outcome_of self (ok (some ev, sn)) c =
    ok (record { callback = opened c; enqueued = some (record ev { args = some self }); sn = sn })

-- The session waits for its response: it holds no request any more.
pub record IsAnswering (cs : ConnectSession) : Type 0 where
  pub session_stat : cs.session_stat ≡ ss_response
  pub read_buf : cs.read_buf ≡ none
  pub read_msg_len : cs.read_msg_len ≡ 0

module _ (pf : Platform) (pb : Protobuf) (self sn : ℕ) where
  pub read_message_lem :
      (c : Connection) (eid : ℕ) (body b i : Bytes)
      → InBody eid body c.session b
      → c.input ≡ i
      → length body ≤ max_msg_len
      → let got = take (length body - length b) i in
        (buf : Bytes) × Holds buf (length body) (b ++ got)
        × (read_message pf pb self sn c ≡ (
            let c' = record c {
              session = record (c.session) {
                read_buf = some buf;
                read_msg_len = length (b ++ got);
              };
              input = drop (length body - length b) i;
            } in
            if length body == length (b ++ got)
            then accept_message pb self sn c'
            else ok (handled (opened c') sn)))
  unfolding read_message write_read_buf
  read_message_lem c eid body b i st e small =
      let got = take (length body - length b) i in
      let size : length got ≤ length body - length b =
        omega (arith, length-take (length body - length b) i) in
      let room : length b + length got ≤ length body = omega (arith, st.short) in
      let (stored, kept) = write-Holds st.buf (length body) b got st.buffer room in
      let total = length-append b got in
      let want : sub_u32 (length body) (length b) ≡ length body - length b =
        omega (arith, st.short) in
      let count : add_u32 (length b) (length got) ≡ length (b ++ got) =
        omega (arith, total, room) in
      (
        _,
        kept,
        rw (
          st.len,
          st.msg_len,
          e,
          want,
          read-take pf (length body - length b) i,
          st.read_buf,
          stored,
          count,
        ),
      )

  pub handle_message-reads :
      (c : Connection)
      → c.session.req_stat ≡ ms_read_message
      → 0 < length c.input
      → handle_message pf pb self sn (opened c) ≡ read_message pf pb self sn c
  unfolding handle_message
  handle_message-reads c stat more =
      let reading : is_reading_message c.session.req_stat ≡ true = ap is_reading_message stat in
      let some_input : ltb 0 (length c.input) ≡ true = ground arith in rw (reading, some_input)

  pub handle_message-waits :
      (c : Connection)
      → c.input ≡ []
      → handle_message pf pb self sn (opened c) ≡ ok (handled (opened c) sn)
  unfolding handle_message
  handle_message-waits c empty =
      let no_input : ltb 0 (length c.input) ≡ false = ap (λ (b : Bytes). ltb 0 (length b)) empty in
      elim (Bool-cases (is_reading_message c.session.req_stat)) [
        | inl r ↦ rw (r, no_input)
        | inr r ↦ rw r
      ]

  -- Bytes that leave the message incomplete are stored.
  pub message_short :
      (c : Connection) (eid : ℕ) (body b i : Bytes)
      → InBody eid body c.session b
      → c.input ≡ i
      → length body ≤ max_msg_len
      → length b + length i < length body
      → (c' : Connection) × (handle_message pf pb self sn (opened c) ≡ ok (handled (opened c') sn))
        × InBody eid body c'.session (b ++ i)
        × (c'.input ≡ [])
        × (c'.output ≡ c.output)
  message_short c eid body b [] st e small few = (
    c,
    handle_message-waits c e,
    subst (InBody eid body c.session) (sym (append-nil b)) st,
    e,
    refl,
  )
  message_short c eid body b (x ∷ xs) st e small few =
      let i = x ∷ xs in
      let all : take (length body - length b) i ≡ i =
        take_all (length body - length b) i (omega arith) in
      let left : drop (length body - length b) i ≡ [] =
        drop_all (length body - length b) i (omega arith) in
      let (buf, held, result) = read_message_lem c eid body b i st e small in
      let total = length-append b i in
      let unfinished : (length body == length (b ++ i)) ≡ false = ground (arith, total, few) in
      let c' = record c {
        session = record (c.session) { read_buf = some buf; read_msg_len = length (b ++ i) };
        input = [];
      } in
      (
        c',
        handle_message-reads c st.req_stat (omega (arith, ap length e))
            ∙ (result ∙ rw (all, left, unfinished)),
        record {
          session_stat = st.session_stat;
          req_stat = st.req_stat;
          eid_eq = st.eid_eq;
          msg_len = st.msg_len;
          len = refl;
          short = omega (arith, total);
          buf = buf;
          read_buf = refl;
          buffer = subst (λ t. Holds buf (length body) (b ++ t)) all held;
        },
        refl,
        refl,
      )

  accept_message_lem :
      (c : Connection) (eid : ℕ) (body : Bytes)
      → c.session.eid ≡ eid
      → c.session.read_buf ≡ some body
      → c.session.read_msg_len ≡ length body
      → (c' : Connection) × (accept_message pb self sn c
          ≡ outcome_of self (parse_event pb (some body) (length body) eid sn) c')
        × IsAnswering c'.session
        × (c'.input ≡ c.input)
        × (c'.output ≡ c.output)
  unfolding accept_message close_connection
  accept_message_lem c eid body he hb hl =
      let cs = record (c.session) {
        session_stat = ss_response;
        read_buf = none;
        read_msg_len = 0;
      } in
      let args : parse_event pb c.session.read_buf c.session.read_msg_len c.session.eid sn
          ≡ parse_event pb (some body) (length body) eid sn =
        λ k. parse_event pb (hb k) (hl k) (he k) sn in
      (
        record c { session = cs },
        elim (Outcome-cases (parse_event pb (some body) (length body) eid sn)) [
          | inr (x, e) ↦ rw (args ∙ e, e)
          | inl ((none, sn'), e) ↦ rw (args ∙ e, e)
          | inl ((some ev, sn'), e) ↦ rw (args ∙ e, e)
        ],
        record { session_stat = refl; read_buf = refl; read_msg_len = refl },
        refl,
        refl,
      )

  -- The bytes that complete the message: it is parsed whole, and what came behind it is left.
  pub message_complete :
      (c : Connection) (eid : ℕ) (body b i j : Bytes)
      → InBody eid body c.session b
      → c.input ≡ i
      → length body ≤ max_msg_len
      → b ++ i ≡ body ++ j
      → (c' : Connection) × (handle_message pf pb self sn (opened c)
          ≡ outcome_of self (parse_event pb (some body) (length body) eid sn) c')
        × IsAnswering c'.session
        × (c'.input ≡ j)
        × (c'.output ≡ c.output)
  message_complete c eid body b i j st e small whole =
      let (buf, held, result) = read_message_lem c eid body b i st e small in
      let (got, left) = split_at b i body j whole (omega (arith, st.short)) in
      let count = ap length got in
      let finished : (length body == length (b ++ take (length body - length b) i)) ≡ true =
        ground (arith, count) in
      let full : buf ≡ body =
        sym (take_all (length body) buf (omega (arith, held.size_eq)))
        ∙ (ap (λ n. take n buf) (sym count) ∙ (held.prefix ∙ got)) in
      let more : 0 < length c.input =
        omega (
          arith,
          st.short,
          ap length e,
          ap length whole,
          length-append b i,
          length-append body j,
        ) in
      let (c', r, a, n, o) =
        accept_message_lem
          (record c {
            session = record (c.session) {
              read_buf = some buf;
              read_msg_len = length (b ++ take (length body - length b) i);
            };
            input = drop (length body - length b) i;
          })
          eid body st.eid_eq (ap some full) count in
      (c', handle_message-reads c st.req_stat more ∙ (result ∙ rw finished r), a, n ∙ left, o)
