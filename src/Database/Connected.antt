-- ===== src/Database/Connected.antt =====
-- The connection that `Init` of src/database/sqlconnection.cc leaves, and the statements that
-- `QueryProcessor::init` runs on it.
use shared_bike.Base.{
  ℕ, ◌≡◌, refl, ◌==◌, Bool, Bool-cases, true, false, Option, Option-cases, none, some, inl, inr,
  Bytes, c_str, Returns, Returns-ok,
}
use shared_bike.Database.{ConnectArgs, Mysql, connected, init, execute, create_table, init_tables}

module _ {W : Type 0} (sql : Mysql W) where
  execute-Returns : (h : ℕ) (text : Bytes) (w : W) → Returns (execute sql (some h) text w)
  unfolding execute
  execute-Returns h text w = elim (Bool-cases ((sql.mysql_real_query h (c_str text) w).0 == 0)) [
    | inl done ↦ rw (done, execute) tt
    | inr failed ↦ rw (failed, execute) tt
  ]

  -- On an open connection both statements run, whatever the database answers.
  pub init_tables-Returns :
      (userinfo bikeinfo : Bytes) (h : ℕ) (w : W)
      → Returns (init_tables sql userinfo bikeinfo (some h) w)
  unfolding init_tables create_table
  init_tables-Returns userinfo bikeinfo h w =
      let (r, e) = Returns-ok (execute sql (some h) userinfo w) (execute-Returns h userinfo w) in
      let (r', e') =
        Returns-ok (execute sql (some h) bikeinfo r.1) (execute-Returns h bikeinfo r.1) in
      rw (e, init_tables, create_table, e') tt

  abbrev HasConnection : Bool × (Option ℕ × W) → Type 0
  HasConnection (true, (none, w)) = ⊥
  HasConnection (true, (some h, w)) = Unit {0}
  HasConnection (false, r) = Unit {0}

  connected-HasConnection : (r : Option ℕ × W) → HasConnection (connected sql r)
  connected-HasConnection (none, w) = tt
  connected-HasConnection (some h, w) = tt

  init-HasConnection :
      (args : ConnectArgs) (mysql : Option ℕ) (w : W) → HasConnection (init sql args mysql w)
  unfolding init
  init-HasConnection args mysql w = elim (Option-cases ((sql.mysql_init mysql w).0)) [
    | inl failed ↦ rw (failed, init) tt
    | inr (h, e) ↦
        rw (e, init)
          (connected-HasConnection
            (sql.mysql_real_connect h args (sql.mysql_options h (sql.mysql_init mysql w).1).1))
  ]

  -- Where `Init` returns true, there is a connection.
  pub init-some :
      (args : ConnectArgs) (mysql : Option ℕ) (w : W)
      → (init sql args mysql w).0 ≡ true
      → (h : ℕ) × ((init sql args mysql w).1.0 ≡ some h)
  init-some args mysql w up = by_result (init sql args mysql w) (init-HasConnection args mysql w) up
    where
      by_result :
          (r : Bool × (Option ℕ × W)) → HasConnection r → r.0 ≡ true → (h : ℕ) × (r.1.0 ≡ some h)
      by_result (true, (none, w')) has e = absurd has
      by_result (true, (some h, w')) has e = (h, refl)
      by_result (false, r) has e = absurd (cc)
