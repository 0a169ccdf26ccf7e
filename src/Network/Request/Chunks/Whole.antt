-- ===== src/Network/Request/Chunks/Whole.antt =====
-- The run of `handle_request` of src/NetworkInterface.cc over all pieces of a request.
use shared_bike.Base.{
  ℕ, ◌^◌, ◌≤◌, ◌<◌, ◌≡◌, refl, sym, ap, ◌∙◌, false, Option, none, some, List, [], ◌∷◌, ◌++◌,
  append_assoc, append-nil, arith, inl, inr, Bytes, length, length-append, Outcome, ok, fault,
  ◌>>=◌, Outcome-cases,
}
use native.Mathlib.Decide.{dec_lt}
use shared_bike.Wire.{max_msg_len, frame}
use shared_bike.Protobuf.{Protobuf}
use shared_bike.Event.{Event}
use shared_bike.Session.{ss_response}
use shared_bike.Dispatch.Parse.{parse_event}
use shared_bike.Network.{Platform, Connection, Callback, opened, closed, is_request, handle_request}
use shared_bike.Network.Request.Header.{InHeader, header_of, frame-header_of}
use shared_bike.Network.Request.Body.{IsAnswering}
use shared_bike.Network.Request.Chunks.{
  receive, Progress, header_part, Progress-short, Progress-complete,
}

-- All the pieces, one callback each.
abbrev pub joined : List Bytes → Bytes
joined [] = []
joined (x ∷ xs) = x ++ joined xs

-- What the callbacks leave: the connection, the events posted in order, and the event counter.
pub record Fed : Type 0 where
  pub callback : Callback
  pub enqueued : List Event
  pub sn : ℕ

abbrev pub posted : Option Event → List Event
posted none = []
posted (some ev) = ev ∷ []

module _ (pf : Platform) (pb : Protobuf) (self : ℕ) where
  -- One callback for each piece, until the connection is closed.
  abbrev then_feed : List Event → (ℕ → Connection → Outcome Fed) → ℕ → Callback → Outcome Fed
  then_feed evs rest sn closed = ok (record { callback = closed; enqueued = evs; sn = sn })
  then_feed evs rest sn (opened c) = do
    f ← rest sn c
    ok (record f { enqueued = evs ++ f.enqueued })

  unfoldable pub feed : List Bytes → ℕ → Connection → Outcome Fed
  feed [] sn c = ok (record { callback = opened c; enqueued = []; sn = sn })
  feed (x ∷ xs) sn c = do
    r ← handle_request pf pb self sn (receive c x)
    then_feed (posted r.enqueued) (feed xs) r.sn r.callback

  -- The result that a request with this event comes to.
  abbrev pub fed_of : Outcome (Option Event × ℕ) → Connection → Outcome Fed
  fed_of (fault x) c = fault x
  fed_of (ok (none, sn)) c = ok (record { callback = closed; enqueued = []; sn = sn })
  fed_of (ok (some ev, sn)) c =
      ok (record { callback = opened c; enqueued = record ev { args = some self } ∷ []; sn = sn })

  -- While a response is pending, `handle_request` reads nothing: bytes that arrive stay in the
  -- input, the session stays as it is, and no event is posted.
  feed-answering :
      (xs : List Bytes) (sn : ℕ) (c : Connection)
      → c.session.session_stat ≡ ss_response
      → feed xs sn c
        ≡ ok (record {
          callback = opened (record c { input = c.input ++ joined xs });
          enqueued = [];
          sn = sn;
        })
  unfolding feed handle_request
  feed-answering [] sn c st = rw (append-nil c.input)
  feed-answering (x ∷ xs) sn c st =
      let busy : is_request c.session.session_stat ≡ false = ap is_request st in
      rw busy (rw (feed-answering xs sn (receive c x) st, append_assoc c.input x (joined xs)))

module _ (pf : Platform) (pb : Protobuf) (self sn eid : ℕ) (body : Bytes) (he : eid < 2 ^ 16)
    (some_bytes : 1 ≤ length body) (few : length body ≤ max_msg_len) where
  abbrev Ends : List Bytes → Connection → Type 0
  Ends xs c =
      (c' : Connection) × (feed pf pb self xs sn c
        ≡ fed_of pf pb self (parse_event pb (some body) (length body) eid sn) c')
      × IsAnswering c'.session
      × (c'.input ≡ [])
      × (c'.output ≡ c.output)

  -- The piece that completes the request, and the empty ones after it.
  feed_last :
      (c : Connection) (d x : Bytes) (xs : List Bytes)
      → Progress eid body c.session d
      → c.input ≡ []
      → d ++ x ≡ frame eid body
      → joined xs ≡ []
      → Ends (x ∷ xs) c
  unfolding feed
  feed_last c d x xs pr e whole none_left =
      let (c', r, a, empty, out) =
        Progress-complete pf pb self sn eid body he some_bytes few c d x [] pr e
          (whole ∙ sym (append-nil (frame eid body))) in
      let nothing_new : (u : Connection) → u.input ++ joined xs ≡ u.input =
        λ u. ap (◌++◌ u.input) none_left ∙ append-nil u.input in
      elim (Outcome-cases (parse_event pb (some body) (length body) eid sn)) [
        | inr (y, p) ↦ (c', rw (r, p), a, empty, out)
        | inl ((none, sn'), p) ↦ (c', rw (r, p), a, empty, out)
        | inl ((some ev, sn'), p) ↦ (
          c',
          rw (r, p, feed-answering pf pb self xs sn' c' a.session_stat)
              (λ k. ok (record {
                callback = opened (record c' { input = nothing_new c' k });
                enqueued = record ev { args = some self } ∷ [];
                sn = sn';
              })),
          a,
          empty,
          out,
        )
      ]

  same_posts : (o : Outcome Fed) → (o >>= λ f. ok (record f { enqueued = [] ++ f.enqueued })) ≡ o
  same_posts (ok f) = refl
  same_posts (fault x) = refl

  feed_rest :
      (xs : List Bytes) (c : Connection) (d : Bytes)
      → Progress eid body c.session d
      → c.input ≡ []
      → d ++ joined xs ≡ frame eid body
      → length d < length (frame eid body)
      → Ends xs c
  unfolding feed
  feed_rest [] c d pr e whole less = absurd (omega (arith, ap length whole, length-append d []))
  feed_rest (x ∷ xs) c d pr e whole less = elim (dec_lt 0 (length (joined xs))) [
    | yes more ↦
        let whole' = append_assoc d x (joined xs) ∙ whole in
        let (c1, r, pr1, empty, out1) =
          Progress-short pf pb self sn eid body he some_bytes few c d x (joined xs) pr e whole'
            more in
        let (c2, r2, a, empty2, out2) =
          feed_rest xs c1 (d ++ x) pr1 empty whole'
            (omega (arith, more, ap length whole', length-append (d ++ x) (joined xs))) in
        (c2, rw r (same_posts (feed pf pb self xs sn c1)) ∙ r2, a, empty2, out2 ∙ out1)
    | no last ↦
        let none_left : joined xs ≡ [] = ground arith in
        feed_last c d x xs pr e
          (sym (append-nil (d ++ x))
            ∙ (ap (◌++◌ (d ++ x)) (sym none_left) ∙ (append_assoc d x (joined xs) ∙ whole)))
          none_left
  ]

-- A new connection, or one whose last response has been sent.
pub record IsReady (c : Connection) : Type 0 where
  pub session : InHeader c.session []
  pub input : c.input ≡ []

-- A request of a 16-bit id and a body of 1 to `max_msg_len` bytes that reaches a ready connection in
-- any pieces is parsed once, whole, whatever the pieces are: its event is posted once with the
-- session's address, the input is used up, nothing is written, and the session awaits its response;
-- the connection is closed where the parse gives no event, and a fault of the parse is the run's.
pub feed-frame :
    (pf : Platform) (pb : Protobuf) (self sn eid : ℕ) (body : Bytes) (chunks : List Bytes)
    (c : Connection)
    → eid < 2 ^ 16
    → 1 ≤ length body
    → length body ≤ max_msg_len
    → IsReady c
    → joined chunks ≡ frame eid body
    → (c' : Connection) × (feed pf pb self chunks sn c
        ≡ fed_of pf pb self (parse_event pb (some body) (length body) eid sn) c')
      × IsAnswering c'.session
      × (c'.input ≡ [])
      × (c'.output ≡ c.output)
feed-frame pf pb self sn eid body chunks c he some_bytes few ready whole =
    feed_rest pf pb self sn eid body he some_bytes few chunks c [] (header_part ready.session)
      ready.input whole
      (omega (
        arith,
        ap length (frame-header_of eid body),
        length-append (header_of eid (length body)) body,
        some_bytes,
      ))
