-- ===== src/Demo/Terminal.antt =====
-- The callbacks of tests/libevent_protobuf/client.cc, and of demo/libevent_protobuf/client.cc where it
-- differs. Their connection is made as that of src/client/client.cc.
use shared_bike.Base.{
  Option, none, some, [], ◌∷◌, ◌++◌, ◌==◌, if◌then◌else◌, Bytes, codes, c_str, length, Outcome, ok,
  write_chars, ◌>>=◌,
}
use shared_bike.Protobuf.{Message}
use shared_bike.Network.{Platform}
use shared_bike.Demo.{ListAccountRecordsRequest, FitsListRequest}

-- `cmd_msg_cb`, where `none` is a read that fails: it exits, or writes a request to the output,
-- whatever was typed.
unfoldable pub list_cmd_msg_cb :
    Message ListAccountRecordsRequest FitsListRequest → Option Bytes → Bytes → Option Bytes
list_cmd_msg_cb larr none output = none
list_cmd_msg_cb larr (some typed) output =
    some (output ++ larr.serialize (record { mobile = codes "18266666666" }))

-- That of the demonstration, whose message is empty.
unfoldable pub empty_cmd_msg_cb : Option Bytes → Bytes → Option Bytes
empty_cmd_msg_cb none output = none
empty_cmd_msg_cb (some typed) output = some (output ++ [])

-- `server_msg_cb` with what its array holds before: it exits where nothing was read, or prints a text
-- and leaves some input. A length is never below zero.
unfoldable pub print_msg_cb : Platform → Bytes → Bytes → Outcome (Option (Bytes × Bytes))
print_msg_cb pf msg input = do
  let (got, rest) = pf.bufferevent_read 1024 input
  if length got == 0 then ok none else (do
    read ← write_chars msg 0 got
    ended ← write_chars read (length got) (0 ∷ [])
    ok (some (c_str ended, rest)))
