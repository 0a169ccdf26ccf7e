-- ===== src/Examples/Users.antt =====
-- Runs of the user's handler, of its database and of the start of the server.
use mathlib.Core.Option
use shared_bike.Base.{
  ◌-◌, ◌*◌, ◌∷◌, ℕ, ◌+◌, ◌<◌, ◌≤◌, ◌≡◌, refl, arith, Bool, false, Option, none, some, [], ◌==◌,
  if◌then◌else◌, Bytes, codes, bytes_eq, c_str, length, replicate, ok, fault, out_of_bounds, ◌>>=◌,
}
use shared_bike.Event.{error_code, invalid_data, new_login_rsp_ev}
use shared_bike.Database.{Mysql, ConnectArgs, exist, insert}
use shared_bike.Database.Statements.{statement-overflow, statement-returns}
use shared_bike.User
use shared_bike.User.{
  UserState, find_code, store_code, code_gen, register, handle_mobile_code_req, handle_login_req,
}
use shared_bike.Event.Typing.{IsTyped}
use shared_bike.Event.{Event, new_mobile_code_req_ev, new_event}
use shared_bike.User.Types.{handle_by_class, handle-by_class}
use shared_bike.User.Login.{login-code}
use shared_bike.Startup.{Environment, or_default}

-- A database that answers each query with no row, and counts the queries.
abbrev pub counting_sql : Mysql ℕ
counting_sql = record {
  malloc = λ w. (some 1, w);
  mysql_init = λ h w. (h, w);
  mysql_options = λ h w. (0, w);
  mysql_real_connect = λ h args w. (some h, w);
  mysql_real_query = λ h text w. (0, w + 1);
  mysql_errno = λ h w. 0;
  mysql_store_result = λ h w. (some 0, w);
  mysql_ping = λ h w. w;
  mysql_close = λ h w. w;
}

abbrev pub local_args : ConnectArgs
local_args = record {
  host = codes "127.0.0.1";
  port = 3306;
  user = codes "root";
  passwd = [];
  db = codes "shared_bike";
}

abbrev pub rand_five : ℕ → ℕ × ℕ
rand_five w = (5, w)

abbrev mobile : Bytes
mobile = codes "18266666666"

abbrev pub nobody : UserState ℕ
nobody = record { m2c = []; world = 0 }

login-code_example :
    let (sent, w) = rand_five nobody.world in
    let (st1, sn1) =
      (handle_mobile_code_req counting_sql rand_five local_args mobile (nobody, 0)).1 in
    handle_login_req counting_sql rand_five local_args mobile 100005 (st1, sn1) ≡ (
      if 100005 == code_gen sent
      then (do
        (e, w') ← register counting_sql rand_five local_args mobile w
        let (rsp, sn2) = new_login_rsp_ev (error_code e) sn1
        ok (rsp, (record st1 { world = w' }, sn2)))
      else (let (rsp, sn2) = new_login_rsp_ev (error_code invalid_data) sn1 in
          ok (rsp, (st1, sn2))))
login-code_example = login-code counting_sql rand_five local_args mobile 100005 0 nobody

abbrev long_number : Bytes
long_number = replicate 1000 49

long_number-length : 987 < length (c_str long_number)
unfolding c_str
long_number-length = omega arith

statement-overflow_example :
    (exist counting_sql (some 1) long_number 0 ≡ fault out_of_bounds)
    × (insert counting_sql (some 1) long_number 0 ≡ fault out_of_bounds)
statement-overflow_example =
    statement-overflow counting_sql (some 1) long_number 0 long_number-length

mobile-length : length (c_str mobile) ≤ 984
unfolding c_str
mobile-length = omega arith

statement-returns_example :
    ((r : Bool × ℕ) × (exist counting_sql (some 1) mobile 0 ≡ ok r))
    × ((r : Bool × ℕ) × (insert counting_sql (some 1) mobile 0 ≡ ok r))
statement-returns_example = statement-returns counting_sql 1 mobile 0 mobile-length

-- Files that set `database:port` to 3307, or that set nothing.
abbrev port_entry : Bool → Bytes → Option Bytes
port_entry set key =
    if bytes_eq key (codes "database:port")
    then (if set then some (codes "3307") else none)
    else none

-- Decimal digits, behind those that were read.
abbrev decimal : ℕ → Bytes → ℕ
decimal n [] = n
decimal n (d ∷ ds) = decimal (10 * n + (d - 48)) ds

abbrev pub two_files : Environment Bool
two_files = record {
  iniparser_load = λ path. some (bytes_eq path (codes "a.ini"));
  iniparser_getstring = λ ini key text. or_default text (port_entry ini key);
  iniparser_getint = λ ini key n. or_default n (Option.map (decimal 0) (port_entry ini key));
  entry = port_entry;
  strtol = decimal 0;
  getstring-entry = λ ini key text. refl;
  getint-entry = λ ini key n. refl;
  configure_throws = λ path. false;
}

abbrev code_request : Event
code_request = (new_mobile_code_req_ev mobile 0).0

code_request-IsTyped : IsTyped code_request
unfolding new_mobile_code_req_ev new_event
code_request-IsTyped = refl

handle-by_class_example :
    User.handle counting_sql rand_five local_args (some code_request) (nobody, 0)
    ≡ handle_by_class counting_sql rand_five local_args code_request.body (nobody, 0)
handle-by_class_example =
    handle-by_class counting_sql rand_five local_args code_request (nobody, 0) code_request-IsTyped
