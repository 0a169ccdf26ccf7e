-- ===== src/Network/Request/Chunks.antt =====
-- A whole request through `handle_request` of src/NetworkInterface.cc, cut into any pieces: libevent
-- runs the callback once for each piece that arrives.
pub mod Whole
use shared_bike.Base.{
  ℕ, zero, suc, ◌+◌, ◌-◌, ◌%◌, ◌^◌, ◌≤◌, ◌<◌, ◌≡◌, refl, sym, ap, subst, ◌∙◌, true, false, Option,
  none, some, List, [], ◌∷◌, ◌++◌, append_assoc, append-nil, arith, ltb, if◌then◌else◌, inl, inr,
  ◌⊎◌, Bytes, length, length-append, take, drop, take-append-drop, append_cancel_drop, split_at,
  Outcome, ok, fault, ◌>>=◌,
}
use native.Mathlib.Decide.{dec_lt}
use shared_bike.Wire.{max_msg_len, frame}
use shared_bike.Protobuf.{Protobuf}
use shared_bike.Event.{Event}
use shared_bike.Session.{ConnectSession, ss_request, ss_response, ms_read_header, ms_read_message}
use shared_bike.Dispatch.Parse.{parse_event}
use shared_bike.Network.{
  Platform, Connection, Callback, opened, closed, Handled, handled, is_request, is_reading_header,
  read_header, handle_message, handle_request,
}
use shared_bike.Network.Request.Header.{
  header_of, length-header_of, frame-header_of, InHeader, InBody, header_short, header_complete,
}
use shared_bike.Network.Request.Body.{
  outcome_of, IsAnswering, handle_message-waits, message_short, message_complete,
}

-- Bytes arrive behind those that are in the input.
abbrev pub receive : Connection → Bytes → Connection
receive c piece = record c { input = c.input ++ piece }

-- The session has read the bytes `d` of the request.
pub data Progress (eid : ℕ) (body : Bytes) (cs : ConnectSession) (d : Bytes) : Type 0 where
  header_part : InHeader cs d → Progress eid body cs d
  body_part :
      (b : Bytes)
      → InBody eid body cs b
      → d ≡ header_of eid (length body) ++ b
      → Progress eid body cs d

module _ (pf : Platform) (pb : Protobuf) (self sn : ℕ) where
  request-header :
      (c : Connection) (d : Bytes)
      → InHeader c.session d
      → handle_request pf pb self sn c ≡ (read_header pf c >>= handle_message pf pb self sn)
  unfolding handle_request
  request-header c d st =
      let asking : is_request c.session.session_stat ≡ true = ap is_request st.session_stat in
      let reading : is_reading_header c.session.req_stat ≡ true =
        ap is_reading_header st.req_stat in
      rw (asking, reading)

  request-body :
      (c : Connection) (eid : ℕ) (body b : Bytes)
      → InBody eid body c.session b
      → handle_request pf pb self sn c ≡ handle_message pf pb self sn (opened c)
  unfolding handle_request
  request-body c eid body b st =
      let asking : is_request c.session.session_stat ≡ true = ap is_request st.session_stat in
      let reading : is_reading_header c.session.req_stat ≡ false =
        ap is_reading_header st.req_stat in
      rw (asking, reading)

module _ (pf : Platform) (pb : Protobuf) (self sn eid : ℕ) (body : Bytes) (he : eid < 2 ^ 16)
    (some_bytes : 1 ≤ length body) (few : length body ≤ max_msg_len) where
  abbrev Stays : Connection → Bytes → Bytes → Type 0
  Stays c d piece =
      (c' : Connection) × (handle_request pf pb self sn (receive c piece)
        ≡ ok (handled (opened c') sn))
      × Progress eid body c'.session (d ++ piece)
      × (c'.input ≡ [])
      × (c'.output ≡ c.output)

  receive_input : (c : Connection) (piece : Bytes) → c.input ≡ [] → (receive c piece).input ≡ piece
  receive_input c piece e = ap (λ (front : Bytes). front ++ piece) e

  -- A piece that leaves the request incomplete.
  pub Progress-short :
      (c : Connection) (d piece r : Bytes)
      → Progress eid body c.session d
      → c.input ≡ []
      → (d ++ piece) ++ r ≡ frame eid body
      → 0 < length r
      → Stays c d piece
  Progress-short c d piece r (header_part st) e whole more =
      elim (dec_lt (length d + length piece) 10) [
        | yes short ↦
            let (c', read, st', empty, out) =
              header_short pf (receive c piece) d piece st (receive_input c piece e) short in
            (
              c',
              request-header pf pb self sn (receive c piece) d st
                  ∙ rw (read, ◌>>=◌) (handle_message-waits pf pb self sn c' empty),
              header_part st',
              empty,
              out,
            )
        | no long ↦
            let size = length-header_of eid (length body) in
            let total = length-append d piece in
            let whole' = whole ∙ frame-header_of eid body in
            let (front, back) =
              split_at (header_of eid (length body)) body (d ++ piece) r (sym whole')
                (omega (arith, size, total)) in
            let j = take (length (d ++ piece) - length (header_of eid (length body))) body in
            let pieces =
              take-append-drop (length (d ++ piece) - length (header_of eid (length body))) body in
            let less : 0 + length j < length body = omega (
              arith,
              more,
              ap length pieces,
              ap length back,
              length-append j
                  (drop (length (d ++ piece) - length (header_of eid (length body))) body),
            ) in
            let (c1, read, st1, left, out1) =
              header_complete pf (receive c piece) d piece j eid body st (receive_input c piece e)
                (sym front) he some_bytes few in
            let (c2, kept, st2, empty, out2) =
              message_short pf pb self sn c1 eid body [] j st1 left few less in
            (
              c2,
              request-header pf pb self sn (receive c piece) d st ∙ rw (read, ◌>>=◌) kept,
              body_part j st2 (sym front),
              empty,
              out2 ∙ out1,
            )
      ]
  Progress-short c d piece r (body_part b st at) e whole more =
      let total : length b + length piece < length body = omega (
        arith,
        more,
        ap length (whole ∙ frame-header_of eid body),
        length-append (d ++ piece) r,
        length-append d piece,
        ap length at,
        length-append (header_of eid (length body)) b,
        length-append (header_of eid (length body)) body,
      ) in
      let (c', kept, st', empty, out) =
        message_short pf pb self sn (receive c piece) eid body b piece st (receive_input c piece e)
          few total in
      (
        c',
        request-body pf pb self sn (receive c piece) eid body b st ∙ kept,
        body_part (b ++ piece) st'
            (ap (λ (front : Bytes). front ++ piece) at ∙ append_assoc _ b piece),
        empty,
        out,
      )

  -- The piece that completes the request; what came behind it is left in the input.
  pub Progress-complete :
      (c : Connection) (d piece j : Bytes)
      → Progress eid body c.session d
      → c.input ≡ []
      → d ++ piece ≡ frame eid body ++ j
      → (c' : Connection) × (handle_request pf pb self sn (receive c piece)
          ≡ outcome_of self (parse_event pb (some body) (length body) eid sn) c')
        × IsAnswering c'.session
        × (c'.input ≡ j)
        × (c'.output ≡ c.output)
  Progress-complete c d piece j (header_part st) e whole =
      let whole' =
        whole
        ∙ (ap (λ (front : Bytes). front ++ j) (frame-header_of eid body)
            ∙ append_assoc (header_of eid (length body)) body j) in
      let (c1, read, st1, left, out1) =
        header_complete pf (receive c piece) d piece (body ++ j) eid body st
          (receive_input c piece e) whole' he some_bytes few in
      let (c2, done, a, left2, out2) =
        message_complete pf pb self sn c1 eid body [] (body ++ j) j st1 left few refl in
      (
        c2,
        request-header pf pb self sn (receive c piece) d st ∙ rw (read, ◌>>=◌) done,
        a,
        left2,
        out2 ∙ out1,
      )
  Progress-complete c d piece j (body_part b st at) e whole =
      let head = header_of eid (length body) in
      let whole' : head ++ (b ++ piece) ≡ head ++ (body ++ j) =
        sym (append_assoc head b piece)
        ∙ (ap (λ (front : Bytes). front ++ piece) (sym at)
            ∙ (whole
                ∙ (ap (λ (front : Bytes). front ++ j) (frame-header_of eid body)
                    ∙ append_assoc head body j))) in
      let rest : b ++ piece ≡ body ++ j =
        sym (append_cancel_drop head (b ++ piece) (length head) refl)
        ∙ (ap (drop (length head)) whole'
            ∙ append_cancel_drop head (body ++ j) (length head) refl) in
      let (c2, done, a, left, out) =
        message_complete pf pb self sn (receive c piece) eid body b piece j st
          (receive_input c piece e) few rest in
      (c2, request-body pf pb self sn (receive c piece) eid body b st ∙ done, a, left, out)
