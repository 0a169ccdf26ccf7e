-- ===== src/Database/Statements.antt =====
-- The statements of src/database/user_service.cc, in their buffers of 1024 bytes.
use shared_bike.Base.{
  ℕ, ◌+◌, ◌≤◌, ◌<◌, ◌≡◌, refl, Bool, true, false, [], ◌∷◌, ◌++◌, leb, if◌then◌else◌, arith, Bytes,
  codes, c_str, length, length-append, length-replicate, blit, write_chars, Option, Option-cases,
  none, some, replicate, ◌==◌, ◌⊎◌, ok, fault, out_of_bounds, Bool-cases, inl, inr,
}
use shared_bike.Database.{
  Mysql, sql_size, sprintf, execute, execute_into, exist, insert, exists_row, query_failed,
  set_result, get_row_count,
}

-- The text fits with its end.
abbrev pub fits : Bytes → Bytes → Bytes → Bool
fits before text after = leb (length (before ++ c_str text ++ after ++ 0 ∷ [])) sql_size

abbrev pub select : Bytes
select = codes "select * from userinfo where mobile="

abbrev pub values : Bytes
values = codes "insert into userinfo (mobile) values ("

abbrev written : Bytes → Bytes → Bytes → Bytes
written before text after = blit (replicate sql_size 0) 0 (before ++ c_str text ++ after ++ 0 ∷ [])

sprintf_lem :
    (before text after : Bytes)
    → sprintf before text after
      ≡ (if fits before text after then ok (written before text after) else fault out_of_bounds)
unfolding sprintf write_chars
sprintf_lem before text after =
    let line = before ++ c_str text ++ after ++ 0 ∷ [] in
    let at : 0 + length line ≡ length line = omega arith in
    rw (length-replicate {A = ℕ} sql_size 0, at)

-- Room for 987 bytes of the number in the one statement, and for 984 in the other.
select-fits : (mobile : Bytes) → fits select mobile [] ≡ leb (length (c_str mobile)) 987
select-fits mobile = ground (
  arith,
  length-append (c_str mobile) [],
  length-append (c_str mobile ++ []) (0 ∷ []),
  length-append (c_str mobile) ([] ++ 0 ∷ []),
)

values-fits : (mobile : Bytes) → fits values mobile (codes ")") ≡ leb (length (c_str mobile)) 984
values-fits mobile = ground (
  arith,
  length-append (c_str mobile) (codes ")"),
  length-append (c_str mobile ++ codes ")") (0 ∷ []),
  length-append (c_str mobile) (codes ")" ++ 0 ∷ []),
)

module _ {W : Type 0} (sql : Mysql W) where
  -- A phone number of more than 987 bytes is written past the end of the buffers of both
  -- statements, on any connection and whatever the database does.
  pub statement-overflow :
      (mysql : Option ℕ) (mobile : Bytes) (w : W)
      → 987 < length (c_str mobile)
      → (exist sql mysql mobile w ≡ fault out_of_bounds)
        × (insert sql mysql mobile w ≡ fault out_of_bounds)
  unfolding exist insert
  statement-overflow mysql mobile w long =
      let no_select : leb (length (c_str mobile)) 987 ≡ false = ground arith in
      let no_values : leb (length (c_str mobile)) 984 ≡ false = ground arith in
      (
        rw (sprintf_lem select mobile [], select-fits mobile, no_select),
        rw (sprintf_lem values mobile (codes ")"), values-fits mobile, no_values),
      )

  execute_into-returns :
      (h : ℕ) (text : Bytes) (w : W)
      → (r : Bool × (Option ℕ × W)) × (execute_into sql (some h) text none w ≡ ok r)
        × ((r.0 ≡ false) ⊎ ((rows : ℕ) × (r.1.0 ≡ some rows)))
  unfolding execute_into set_result
  execute_into-returns h text w =
      let q = sql.mysql_real_query h (c_str text) w in
      let stored = sql.mysql_store_result h q.1 in
      elim (Bool-cases (q.0 == 0)) [
        | inr bad ↦ ((false, (none, query_failed sql h q.1)), rw bad, inl refl)
        | inl good ↦ elim (Option-cases stored.0) [
          | inl nothing ↦ ((false, (none, stored.1)), rw (good, nothing), inl refl)
          | inr (rows, found) ↦ ((true, (some rows, stored.1)), rw (good, found), inr (rows, refl))
        ]
      ]

  exists_row-returns :
      (r : Bool × (Option ℕ × W))
      → (r.0 ≡ false) ⊎ ((rows : ℕ) × (r.1.0 ≡ some rows))
      → (x : Bool × W) × (exists_row sql r ≡ ok x)
  unfolding get_row_count
  exists_row-returns (false, (set, w)) c = ((false, w), refl)
  exists_row-returns (true, (none, w)) c = absurd (ground arith)
  exists_row-returns (true, (some rows, w)) c = (_, refl)

  execute-returns :
      (h : ℕ) (text : Bytes) (w : W) → (x : Bool × W) × (execute sql (some h) text w ≡ ok x)
  unfolding execute
  execute-returns h text w =
      let q = sql.mysql_real_query h (c_str text) w in
      elim (Bool-cases (q.0 == 0)) [
        | inr bad ↦ ((false, query_failed sql h q.1), rw bad)
        | inl good ↦ ((true, q.1), rw good)
      ]

  -- On an open connection and with a number of at most 984 bytes, both statements are made and
  -- return, whatever the database answers.
  pub statement-returns :
      (h : ℕ) (mobile : Bytes) (w : W)
      → length (c_str mobile) ≤ 984
      → ((r : Bool × W) × (exist sql (some h) mobile w ≡ ok r))
        × ((r : Bool × W) × (insert sql (some h) mobile w ≡ ok r))
  unfolding exist insert
  statement-returns h mobile w short =
      let room : leb (length (c_str mobile)) 987 ≡ true = ground arith in
      let room' : leb (length (c_str mobile)) 984 ≡ true = ground arith in
      let (r, e, shape) = execute_into-returns h (written select mobile []) w in
      let (x, found) = exists_row-returns r shape in
      let (y, inserted) = execute-returns h (written values mobile (codes ")")) w in
      (
        (x, rw (sprintf_lem select mobile [], select-fits mobile, room, e) found),
        (y, rw (sprintf_lem values mobile (codes ")"), values-fits mobile, room') inserted),
      )
