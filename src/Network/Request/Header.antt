-- ===== src/Network/Request/Header.antt =====
-- The first half of `handle_request` of src/NetworkInterface.cc: ten bytes of header, in any pieces.
use shared_bike.Base.{
  ℕ, ◌+◌, ◌-◌, ◌^◌, ◌≤◌, ◌<◌, ◌≡◌, refl, sym, ap, subst, ◌∙◌, true, false, some, [], ◌++◌, arith,
  ◌==◌, ltb, ◌||◌, if◌then◌else◌, Bytes, bytes_eq, bytes_eq_iff, length, length-append, take, drop,
  take_all, drop_all, take-append-drop, length-take, ok, split_at,
}
use shared_bike.Wire.{
  message_header, message_header_len, max_msg_len, put_u16, put_u32, load_u16, load_u32, frame,
}
use shared_bike.Wire.RoundTrip.{load_u16-put_u16, load_u32-put_u32}
use shared_bike.Session.{ConnectSession, ss_request, ms_read_header, ms_read_message}
use shared_bike.Network.{Platform, Connection, opened, add_u32, sub_u32, accept_header, read_header}
use shared_bike.Network.Request.Reads.{read-take, Holds, write-Holds, terminate-Holds}

-- The header of a message with this event id and length.
unfoldable pub header_of : ℕ → ℕ → Bytes
unfolding put_u16 put_u32
header_of eid len = message_header ++ put_u16 eid ++ put_u32 len

pub length-header_of : (eid len : ℕ) → length (header_of eid len) ≡ 10
unfolding header_of
length-header_of eid len = refl

pub frame-header_of :
    (eid : ℕ) (body : Bytes) → frame eid body ≡ header_of eid (length body) ++ body
unfolding frame header_of
frame-header_of eid body = refl

-- The session has the bytes `h` of a header so far.
pub record InHeader (cs : ConnectSession) (h : Bytes) : Type 0 where
  pub session_stat : cs.session_stat ≡ ss_request
  pub req_stat : cs.req_stat ≡ ms_read_header
  pub len : cs.read_header_len ≡ length h
  pub short : length h < 10
  pub buffer : Holds cs.header 11 h

-- The session has a header and the bytes `b` of the message `body` so far.
pub record InBody (eid : ℕ) (body : Bytes) (cs : ConnectSession) (b : Bytes) : Type 0 where
  pub session_stat : cs.session_stat ≡ ss_request
  pub req_stat : cs.req_stat ≡ ms_read_message
  pub eid_eq : cs.eid ≡ eid
  pub msg_len : cs.msg_len ≡ length body
  pub len : cs.read_msg_len ≡ length b
  pub short : length b < length body
  pub buf : Bytes
  pub read_buf : cs.read_buf ≡ some buf
  pub buffer : Holds buf (length body) b

-- What the code does with the bytes read so far, before it looks at the header.
abbrev after_read : ConnectSession → Bytes → Bytes → ConnectSession
after_read cs header h = record cs { header = header; read_header_len = length h }

pub read_header_lem :
    (pf : Platform) (c : Connection) (h i : Bytes)
    → InHeader c.session h
    → c.input ≡ i
    → let got = take (10 - length h) i in
      (header : Bytes) × Holds header 11 (h ++ got)
      × (read_header pf c ≡ (
          let c' = record c {
            session = record (c.session) { header = header; read_header_len = length (h ++ got) };
            input = drop (10 - length h) i;
          } in
          if length (h ++ got) == message_header_len then accept_header pf c' else ok (opened c')))
unfolding read_header
read_header_lem pf c h i st e =
    let got = take (10 - length h) i in
    let size : length got ≤ 10 - length h =
      omega (arith, length-take (10 - length h) i, st.short) in
    let room : length h + length got ≤ 11 = omega (arith, st.short) in
    let (stored, kept) = write-Holds c.session.header 11 h got st.buffer room in
    let total = length-append h got in
    let more : length (h ++ got) < 11 = omega (arith, st.short, total) in
    let (ended, kept') = terminate-Holds _ 11 (h ++ got) kept more in
    let want : sub_u32 message_header_len (length h) ≡ 10 - length h = omega (arith, st.short) in
    let count : add_u32 (length h) (length got) ≡ length (h ++ got) =
      omega (arith, st.short, total) in
    (_, kept', rw (st.len, e, want, read-take pf (10 - length h) i, stored, count, ended))

-- Fewer bytes than the header still wants: all of them are stored, and it stays unfinished.
pub header_short :
    (pf : Platform) (c : Connection) (h i : Bytes)
    → InHeader c.session h
    → c.input ≡ i
    → length h + length i < 10
    → (c' : Connection) × (read_header pf c ≡ ok (opened c'))
      × InHeader c'.session (h ++ i)
      × (c'.input ≡ [])
      × (c'.output ≡ c.output)
header_short pf c h i st e few =
    let all : take (10 - length h) i ≡ i = take_all (10 - length h) i (omega arith) in
    let left : drop (10 - length h) i ≡ [] = drop_all (10 - length h) i (omega arith) in
    let (header, held, result) = read_header_lem pf c h i st e in
    let total = length-append h i in
    let unfinished : (length (h ++ i) == message_header_len) ≡ false = ground (arith, total, few) in
    let c' = record c {
      session = record (c.session) { header = header; read_header_len = length (h ++ i) };
      input = [];
    } in
    (
      c',
      result ∙ rw (all, left, unfinished),
      record {
        session_stat = st.session_stat;
        req_stat = st.req_stat;
        len = refl;
        short = omega (arith, total);
        buffer = subst (λ b. Holds header 11 (h ++ b)) all held;
      },
      refl,
      refl,
    )

-- The three fields of a header that is stored in front of anything.
header_fields :
    (eid len : ℕ) (z : Bytes)
    → eid < 2 ^ 16
    → len < 2 ^ 32
    → (take 4 (header_of eid len ++ z) ≡ message_header)
      × (load_u16 (drop 4 (header_of eid len ++ z)) ≡ eid)
      × (load_u32 (drop 6 (header_of eid len ++ z)) ≡ len)
unfolding header_of
header_fields eid len z he hl =
    (refl, load_u16-put_u16 eid (put_u32 len ++ z) he, load_u32-put_u32 len z hl)

Holds-split : (buf p : Bytes) (size : ℕ) → Holds buf size p → buf ≡ p ++ drop (length p) buf
Holds-split buf p size h =
    sym (take-append-drop (length p) buf) ∙ ap (λ front. front ++ drop (length p) buf) h.prefix

-- The connection once a header is accepted.
abbrev pub awaiting : Platform → ℕ → Bytes → Connection → Connection
awaiting pf eid body c = record c {
  session = record (c.session) {
    eid = eid;
    msg_len = length body;
    read_buf = some (pf.new_chars (length body));
    req_stat = ms_read_message;
    read_msg_len = 0;
  };
}

accept_header_lem :
    (pf : Platform) (c : Connection) (eid : ℕ) (body : Bytes)
    → Holds c.session.header 11 (header_of eid (length body))
    → eid < 2 ^ 16
    → 1 ≤ length body
    → length body ≤ max_msg_len
    → accept_header pf c ≡ ok (opened (awaiting pf eid body c))
unfolding accept_header
accept_header_lem pf c eid body held he some_bytes few =
    let small : length body < 2 ^ 32 = omega arith in
    let z = drop (length (header_of eid (length body))) c.session.header in
    let whole = Holds-split c.session.header (header_of eid (length body)) 11 held in
    let (magic, id, len) = header_fields eid (length body) z he small in
    let magic' : bytes_eq (take 4 c.session.header) message_header ≡ true =
      (bytes_eq_iff _ _).1 (ap (take 4) whole ∙ magic) in
    let id' = ap (λ b. load_u16 (drop 4 b)) whole ∙ id in
    let len' = ap (λ b. load_u32 (drop 6 b)) whole ∙ len in
    let in_range : (ltb (length body) 1 || ltb max_msg_len (length body)) ≡ false = ground arith in
    rw (magic', id', len', in_range)

-- The bytes that complete a valid header: the message's buffer is ready, and what came behind the
-- header is left in the input.
pub header_complete :
    (pf : Platform) (c : Connection) (h i j : Bytes) (eid : ℕ) (body : Bytes)
    → InHeader c.session h
    → c.input ≡ i
    → h ++ i ≡ header_of eid (length body) ++ j
    → eid < 2 ^ 16
    → 1 ≤ length body
    → length body ≤ max_msg_len
    → (c' : Connection) × (read_header pf c ≡ ok (opened c'))
      × InBody eid body c'.session []
      × (c'.input ≡ j)
      × (c'.output ≡ c.output)
header_complete pf c h i j eid body st e whole he some_bytes few =
    let (header, held, result) = read_header_lem pf c h i st e in
    let size = length-header_of eid (length body) in
    let enough : length h + length i ≡ 10 + length j = omega (
      arith,
      ap length whole,
      length-append h i,
      length-append (header_of eid (length body)) j,
      size,
    ) in
    let (got, left) =
      subst
        (λ n.
          (h ++ take (n - length h) i ≡ header_of eid (length body)) × (drop (n - length h) i ≡ j))
        size (split_at h i (header_of eid (length body)) j whole (omega (arith, size, st.short))) in
    let held' = subst (Holds header 11) got held in
    let finished : (length (h ++ take (10 - length h) i) == message_header_len) ≡ true =
      ground (arith, ap length got, size) in
    let ready = record c {
      session = record (c.session) {
        header = header;
        read_header_len = length (h ++ take (10 - length h) i);
      };
      input = drop (10 - length h) i;
    } in
    (
      awaiting pf eid body ready,
      result ∙ rw finished (accept_header_lem pf ready eid body held' he some_bytes few),
      record {
        session_stat = st.session_stat;
        req_stat = refl;
        eid_eq = refl;
        msg_len = refl;
        len = refl;
        short = some_bytes;
        buf = pf.new_chars (length body);
        read_buf = refl;
        buffer = record { size_eq = pf.length-new_chars (length body); prefix = refl };
      },
      left,
      refl,
    )
