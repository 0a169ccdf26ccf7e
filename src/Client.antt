-- ===== src/Client.antt =====
-- The test client, src/client/client.cc: the commands that it sends, and what it does with the
-- server's responses. Its two arrays of 1024 chars are arguments, with what they hold before.
pub mod EndToEnd
pub mod Reply
pub mod Overrun
pub mod Connect
use shared_bike.Base.{
  ℕ, ◌+◌, ◌-◌, ◌%◌, ◌^◌, Bool, true, false, Option, none, some, [], ◌∷◌, ◌==◌, ◌&&◌, leb,
  if◌then◌else◌, Bytes, codes, bytes_eq, c_str, length, take, drop, Outcome, ok, fault,
  out_of_bounds, write_chars, ◌>>=◌,
}
use shared_bike.Wire.{message_header_len, message_header, put_u16, put_u32, load_u16, load_u32}
use shared_bike.Protobuf.{Protobuf, MobileResponse}
use shared_bike.Event.{EventBody, mobile_code_req_ev, login_req_ev, byte_size, serialize_to_array}
use shared_bike.Network.{add_u32}
use shared_bike.Network.Response.{bufferevent_write}

-- A callback calls `exit(1)`, or returns with the bytes written and the global `icode`.
pub data Client : Type 0 where
  exited : Client
  running : (output : Bytes) (icode : ℕ) → Client

-- A request of `eid` in `msg`, and `bufferevent_write` of it.
unfoldable pub send_request : Protobuf → Bytes → ℕ → EventBody → Bytes → Outcome Bytes
send_request pb msg eid body output = do
  let len = byte_size pb body % 2 ^ 32
  marked ← write_chars msg 0 message_header
  with_id ← write_chars marked 4 (put_u16 eid)
  with_len ← write_chars with_id 6 (put_u32 len)
  (written, _) ← serialize_to_array pb body with_len message_header_len len
  bufferevent_write (some written) (add_u32 len message_header_len) output

abbrev pub own_mobile : Bytes
own_mobile = codes "18266666666"

-- `cmd[ret - 1] = '\\0'` and the string that `cmd` is then.
unfoldable pub read_cmd : Bytes → Outcome Bytes
read_cmd [] = fault out_of_bounds
read_cmd (b ∷ bytes) = ok (c_str (take (length bytes) (b ∷ bytes)))

-- The body of `if (strcmp(cmd, name) == 0)`.
abbrev on_command : Bytes → Bytes → (Bytes → Outcome Bytes) → Bytes → Outcome Bytes
on_command cmd name send output = if bytes_eq cmd name then send output else ok output

-- `none` is a read that fails.
unfoldable pub cmd_msg_cb : Protobuf → Bytes → Option Bytes → Bytes → ℕ → Outcome Client
cmd_msg_cb pb msg none output icode = ok exited
cmd_msg_cb pb msg (some bytes) output icode = do
  let mr = mobile_code_req_ev (record { mobile = own_mobile })
  let lr = login_req_ev (record { mobile = own_mobile; icode = icode })
  cmd ← read_cmd bytes
  after_mr ← on_command cmd (codes "send_mr") (send_request pb msg 1 mr) output
  after_lr ← on_command cmd (codes "send_lr") (send_request pb msg 3 lr) after_mr
  ok (running after_lr icode)

-- `ParseFromArray(msg + 10, len)` of the mobile response; what a failed parse leaves in the message
-- is `partial`. A length below zero fails, and one past the array is read out of bounds.
unfoldable pub parse_icode : Protobuf → (Bytes → MobileResponse) → Bytes → ℕ → Outcome ℕ
parse_icode pb partial msg len =
    if leb (2 ^ 31) len
    then ok (partial []).icode
    else if leb (message_header_len + len) (length msg)
    then ok (elim (pb.mobile_response.parse (take len (drop message_header_len msg))) [
      | some mr ↦ mr.icode
      | none ↦ (partial (take len (drop message_header_len msg))).icode
    ])
    else fault out_of_bounds

-- The chars that `ParseFromArray(msg + 10, len)` of the login response reads; what they come to is
-- only printed. A length below zero reads none, and one past the array is read out of bounds.
unfoldable pub read_login : Bytes → ℕ → Outcome Bytes
read_login msg len =
    if leb (2 ^ 31) len
    then ok []
    else if leb (message_header_len + len) (length msg)
    then ok (take len (drop message_header_len msg))
    else fault out_of_bounds

-- What is done with the string `msg`.
unfoldable pub read_response :
    Protobuf → (Bytes → MobileResponse) → Bytes → Bytes → ℕ → Outcome Client
read_response pb partial msg output icode =
    let event_id = load_u16 (drop 4 msg) in
    let len = load_u32 (drop 6 msg) in
    if bytes_eq (take 4 msg) message_header
    then (if event_id == 2
        then (do icode' ← parse_icode pb partial msg len; ok (running output icode'))
        else if event_id == 4
        then (do printed ← read_login msg len; ok (running output icode))
        else ok (running output icode))
    else ok (running output icode)

-- The bytes that were read into `msg` come as an argument; none at all is the end of the connection.
unfoldable pub server_msg_cb :
    Protobuf → (Bytes → MobileResponse) → Bytes → Bytes → Bytes → ℕ → Outcome Client
server_msg_cb pb partial msg [] output icode = ok exited
server_msg_cb pb partial msg (b ∷ got) output icode = do
  filled ← write_chars msg 0 (b ∷ got)
  ended ← write_chars filled (length (b ∷ got)) (0 ∷ [])
  read_response pb partial ended output icode
