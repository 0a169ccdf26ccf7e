-- ===== src/Demo/Echo.antt =====
-- The echo server, demo/libevent_protobuf/server.cc. A stream is the two byte queues of a bufferevent.
use shared_bike.Base.{
  ℕ, Bool, true, false, Option, none, some, [], ◌∷◌, ◌++◌, Bytes, length, c_str, Outcome, ok, fault,
  null_deref, missing_return, write_chars, ◌>>=◌,
}
use shared_bike.Protobuf.{Message}
use shared_bike.Network.{Platform}
use shared_bike.Demo.{ListAccountRecordsRequest, FitsListRequest, parsed_into}

abbrev pub buflen : ℕ
buflen = 1024

pub record ConnectStat : Type 0 where
  pub bev : ℕ
  pub buf : Bytes

pub record Stream : Type 0 where
  pub input : Bytes
  pub output : Bytes

-- `stat_init`, where `malloc` returns memory or not: with memory the body ends without a return.
unfoldable pub stat_init : Bool → Outcome (Option ConnectStat)
stat_init false = ok none
stat_init true = fault missing_return

-- `listener_cb`: a new client, with its stat and its stream.
unfoldable pub accept_client : Bool → Outcome (Option ConnectStat × Stream)
unfolding stat_init
accept_client malloc = do stat ← stat_init malloc; ok (stat, record { input = []; output = [] })

-- `do_echo_request` on the stat of a connection: what its buffer holds, and the stream.
unfoldable pub do_echo_request :
    Platform
    → Message ListAccountRecordsRequest FitsListRequest
    → (Bytes → ListAccountRecordsRequest)
    → Option ConnectStat
    → Stream
    → Outcome (ConnectStat × Stream)
do_echo_request pf larr partial none s = fault null_deref
do_echo_request pf larr partial (some stat) s = do
  let (got, rest) = pf.bufferevent_read buflen s.input
  msg ← write_chars stat.buf 0 got
  ended ← write_chars msg (length got) (0 ∷ [])
  let proto_msg = c_str ended
  ok (
    record stat { buf = ended },
    record { input = rest; output = s.output ++ (parsed_into larr partial proto_msg).mobile },
  )
