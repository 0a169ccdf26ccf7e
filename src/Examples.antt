-- ===== src/Examples.antt =====
-- Concrete data and runs: a platform, a protobuf encoding, a connection, and one run of each
-- property that has conditions.
mod Requests
mod Tasks
mod Pool
mod Service
mod Assembly
mod Start
mod Demos
mod Logins
mod Users
use shared_bike.Base.{
  ℕ, ◌≡◌, refl, ◌<◌, arith, Option, none, some, [], ◌∷◌, Bytes, codes, length, take, drop,
  length-take, take-append-drop, length-replicate, replicate,
}
use shared_bike.Protobuf.{
  Protobuf, Message, MobileRequest, MobileResponse, LoginRequest, LoginResponse, FitsMobileRequest,
  FitsMobileResponse, FitsLoginRequest, FitsLoginResponse,
}
use shared_bike.Session.{session_init}
use shared_bike.Network.{Platform, Connection}

-- Reads take what there is, and new memory is zero.
abbrev pub plain_platform : Platform
plain_platform = record {
  bufferevent_read = λ n input. (take n input, drop n input);
  read_split = take-append-drop;
  read_length = length-take;
  new_chars = λ n. replicate n 0;
  length-new_chars = λ n. length-replicate n 0;
}

-- Messages as their fields in a row.
abbrev parse_response : Bytes → Option MobileResponse
parse_response (c ∷ i ∷ rest) = some (record { code = c; icode = i; data_ = rest })
parse_response _ = none

abbrev parse_login : Bytes → Option LoginRequest
parse_login (i ∷ rest) = some (record { mobile = rest; icode = i })
parse_login [] = none

abbrev parse_login_response : Bytes → Option LoginResponse
parse_login_response (c ∷ rest) = some (record { code = c; desc = rest })
parse_login_response [] = none

abbrev pub plain_protobuf : Protobuf
plain_protobuf = record {
  mobile_request = record {
    byte_size = λ m. length m.mobile;
    serialize = λ m. m.mobile;
    parse = λ s. some (record { mobile = s });
    length-serialize = λ m. refl;
    parse-serialize = λ m fits. refl;
  };
  mobile_response = record {
    byte_size = λ m. length (m.code ∷ m.icode ∷ m.data_);
    serialize = λ m. m.code ∷ m.icode ∷ m.data_;
    parse = parse_response;
    length-serialize = λ m. refl;
    parse-serialize = λ m fits. refl;
  };
  login_request = record {
    byte_size = λ m. length (m.icode ∷ m.mobile);
    serialize = λ m. m.icode ∷ m.mobile;
    parse = parse_login;
    length-serialize = λ m. refl;
    parse-serialize = λ m fits. refl;
  };
  login_response = record {
    byte_size = λ m. length (m.code ∷ m.desc);
    serialize = λ m. m.code ∷ m.desc;
    parse = parse_login_response;
    length-serialize = λ m. refl;
    parse-serialize = λ m fits. refl;
  };
}

-- A connection that was just accepted, on socket 7.
abbrev pub fresh_connection : Connection
fresh_connection = record { session = session_init 7 8; input = []; output = [] }
