-- ===== src/Network/Cycle.antt =====
-- One request and its response, from a ready connection to a ready connection.
use shared_bike.Base.{ℕ, ◌≡◌, refl, ap, subst, ◌∙◌, true, some, List, [], ◌++◌, arith, length, ok}
use shared_bike.Protobuf.{Protobuf}
use shared_bike.Event.{Event}
use shared_bike.Network.{Platform, Connection}
use shared_bike.Network.Request.Chunks.Whole.{IsReady}
use shared_bike.Network.Response.{Sessions, handle_all_response_event}
use shared_bike.Network.Response.Flush.{
  AllReady, Answered, IsReset, After, frames_for, any_for, flush-replies,
}

-- A reset session reads a header from its first byte.
reset-IsReady :
    (c c' : Connection)
    → IsReset c.session c'.session
    → length c.session.header ≡ 11
    → c'.input ≡ []
    → IsReady c'
reset-IsReady c c' r size empty = record {
  session = record {
    session_stat = r.session_stat;
    req_stat = r.req_stat;
    len = r.read_header_len;
    short = omega arith;
    buffer = record { size_eq = ap length r.header ∙ size; prefix = refl };
  };
  input = empty;
}

-- A session whose responses stand in a queue that can be sent, with nothing unread and its header
-- buffer of 11 chars, is ready for the next request after the loop, and its client has the frames
-- of its responses behind what it had.
pub answered-IsReady :
    (pf : Platform) (pb : Protobuf) (evs : List Event) (ss : Sessions) (at : ℕ) (c : Connection)
    → AllReady pb ss evs
    → ss at ≡ some c
    → any_for at evs ≡ true
    → c.input ≡ []
    → length c.session.header ≡ 11
    → (ss' : Sessions) × (c' : Connection) × (handle_all_response_event pf pb evs ss ≡ ok ss')
      × (ss' at ≡ some c')
      × IsReady c'
      × (c'.output ≡ c.output ++ frames_for pb at evs)
answered-IsReady pf pb evs ss at c all found addressed empty size =
    let (ss', r, each) = flush-replies pf pb evs ss all in
    let (c', s, out, inp, aft) = subst (λ o. Answered pb evs at o (ss' at)) found (each at) in
    (
      ss',
      c',
      r,
      s,
      reset-IsReady c c' (subst (λ b. After b c.session c'.session) addressed aft) size
          (inp ∙ empty),
      out,
    )
