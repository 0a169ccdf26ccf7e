-- ===== src/Database.antt =====
-- src/database/: `MySqlConnection` and `SqlRecordSet` of sqlconnection.h and sqlconnection.cc,
-- `UserService` of user_service.cc, `SqlTables` of SqlTables.h, `QueryProcessor::init`.
pub mod Statements
pub mod Connected
use shared_bike.Base.{
  ℕ, ◌%◌, ◌^◌, Bool, true, false, Option, none, some, [], ◌∷◌, ◌++◌, ◌==◌, not, replicate,
  if◌then◌else◌, Bytes, codes, c_str, length, write_chars, Outcome, ok, fault, null_deref,
  assert_failed, ◌>>=◌,
}

-- The arguments of a connection.
pub record ConnectArgs : Type 0 where
  pub host : Bytes
  pub port : ℕ
  pub user : Bytes
  pub passwd : Bytes
  pub db : Bytes

-- What the code relies on of the MySQL client library, on a world of its own. A `MYSQL *` is an
-- address; of a `MYSQL_RES` the code reads `row_count` alone, so that is all of it here.
pub record Mysql (W : Type 0) : Type 0 where
  -- `malloc(sizeof(MYSQL))`
  pub malloc : W → Option ℕ × W
  pub mysql_init : Option ℕ → W → Option ℕ × W
  pub mysql_options : ℕ → W → ℕ × W
  pub mysql_real_connect : ℕ → ConnectArgs → W → Option ℕ × W
  pub mysql_real_query : ℕ → Bytes → W → ℕ × W
  pub mysql_errno : ℕ → W → ℕ
  pub mysql_store_result : ℕ → W → Option ℕ × W
  pub mysql_ping : ℕ → W → W
  pub mysql_close : ℕ → W → W

-- CR_SERVER_GONE_ERROR
abbrev pub cr_server_gone_error : ℕ
cr_server_gone_error = 2006

-- More of it, for the members that nothing calls but the logging.
pub record MysqlText (W : Type 0) : Type 0 where
  -- what `mysql_real_escape_string` makes of a string, without its NUL
  pub mysql_real_escape_string : ℕ → Bytes → Bytes
  pub mysql_error : Option ℕ → W → Bytes

-- `EscapeString` into the array `dest`: the length that is returned, and the array. Without a
-- connection nothing is written.
unfoldable pub escape_string :
    {W : Type 0} → MysqlText W → Option ℕ → Bytes → Bytes → Outcome (ℕ × Bytes)
escape_string lib none src dest = ok (0, dest)
escape_string lib (some h) src dest = do
  let escaped = lib.mysql_real_escape_string h src
  written ← write_chars dest 0 (escaped ++ 0 ∷ [])
  ok (length escaped, written)

-- `GetErrInfo`
unfoldable pub get_err_info : {W : Type 0} → MysqlText W → Option ℕ → W → Bytes
get_err_info lib mysql w = lib.mysql_error mysql w

-- A statement that is printed into a `char[1024]` of zeros.
abbrev pub sql_size : ℕ
sql_size = 1024

unfoldable pub sprintf : Bytes → Bytes → Bytes → Outcome Bytes
sprintf before text after =
    write_chars (replicate sql_size 0) 0 (before ++ c_str text ++ after ++ 0 ∷ [])

-- `SetResult` on the result that the set holds.
unfoldable pub set_result : Option ℕ → ℕ → Outcome (Option ℕ)
set_result none res = ok (some res)
set_result (some _) res = fault assert_failed

-- `GetRowCount`, an i32.
unfoldable pub get_row_count : Option ℕ → Outcome ℕ
get_row_count none = fault null_deref
get_row_count (some rows) = ok (rows % 2 ^ 32)

module _ {W : Type 0} (sql : Mysql W) where
  unfoldable pub new_connection : W → Option ℕ × W
  new_connection w = sql.malloc w

  -- The destructor.
  unfoldable pub delete_connection : Option ℕ → W → W
  delete_connection none w = w
  delete_connection (some h) w = sql.mysql_close h w

  abbrev connected : Option ℕ × W → Bool × (Option ℕ × W)
  connected (none, w) = (false, (none, w))
  connected (some h, w) = (true, (some h, w))

  -- `Init`: the answer, and the member `mysql_` with the world. A failed option is only logged.
  unfoldable pub init : ConnectArgs → Option ℕ → W → Bool × (Option ℕ × W)
  init args mysql w =
      let (started, w1) = sql.mysql_init mysql w in
      elim started [
        | none ↦ (false, (none, w1))
        | some h ↦
            (let (_, w2) = sql.mysql_options h w1 in connected (sql.mysql_real_connect h args w2))
      ]

  -- `Close`: the member keeps its address, and the destructor closes it again.
  unfoldable pub close_mysql : ℕ → W → W
  close_mysql h w = sql.mysql_close h w

  unfoldable pub reconnect : ℕ → W → W
  reconnect h w = sql.mysql_ping h w

  -- A query that failed: a lost connection is tried again, and the query is not.
  unfoldable pub query_failed : ℕ → W → W
  unfolding reconnect
  query_failed h w = if sql.mysql_errno h w == cr_server_gone_error then reconnect h w else w

  -- `Execute(szSql)`
  unfoldable pub execute : Option ℕ → Bytes → W → Outcome (Bool × W)
  execute none text w = fault null_deref
  execute (some h) text w =
      let (err, w1) = sql.mysql_real_query h (c_str text) w in
      if err == 0 then ok (true, w1) else ok (false, query_failed h w1)

  -- `Execute(szSql, recordSet)`, with the set after it.
  unfoldable pub execute_into : Option ℕ → Bytes → Option ℕ → W → Outcome (Bool × (Option ℕ × W))
  execute_into none text set w = fault null_deref
  execute_into (some h) text set w =
      let (err, w1) = sql.mysql_real_query h (c_str text) w in
      if err == 0
      then (let (res, w2) = sql.mysql_store_result h w1 in
          elim res [
            | none ↦ ok (false, (set, w2))
            | some rows ↦ (do stored ← set_result set rows; ok (true, (stored, w2)))
          ])
      else ok (false, (set, query_failed h w1))

  abbrev pub exists_row : Bool × (Option ℕ × W) → Outcome (Bool × W)
  exists_row (false, (_, w)) = ok (false, w)
  exists_row (true, (set, w)) = do rows ← get_row_count set; ok (not (rows == 0), w)

  -- `UserService::exist`
  unfoldable pub exist : Option ℕ → Bytes → W → Outcome (Bool × W)
  exist mysql mobile w = do
    text ← sprintf (codes "select * from userinfo where mobile=") mobile []
    executed ← execute_into mysql text none w
    exists_row executed

  -- `UserService::insert`
  unfoldable pub insert : Option ℕ → Bytes → W → Outcome (Bool × W)
  insert mysql mobile w = do
    text ← sprintf (codes "insert into userinfo (mobile) values (") mobile (codes ")")
    execute mysql text w

  -- `QueryProcessor::init`: what `CreateUserInfoTable` and `CreateBikeInfoTable` return is ignored.
  -- The text of a statement is an argument: nothing here depends on it.
  unfoldable pub create_table : Bytes → Option ℕ → W → Outcome (Bool × W)
  create_table text mysql w = execute mysql text w

  unfoldable pub init_tables : Bytes → Bytes → Option ℕ → W → Outcome (Bool × W)
  init_tables userinfo bikeinfo mysql w = do
    (_, w1) ← create_table userinfo mysql w
    (_, w2) ← create_table bikeinfo mysql w1
    ok (true, w2)
