-- ===== src/User/Login.antt =====
-- The validation codes of src/user_event_handler.cc.
use shared_bike.Base.{
  ℕ, ◌≤◌, ◌<◌, ◌≡◌, refl, sym, ap, ◌∙◌, Bool, true, false, some, [], ◌∷◌, ◌==◌, if◌then◌else◌,
  Bytes, bytes_eq, bytes_eq_iff, Bool-cases, inl, inr, arith, ok, ◌>>=◌,
}
use shared_bike.Event.{error_code, invalid_data, new_login_rsp_ev}
use shared_bike.Database.{Mysql, ConnectArgs}
use shared_bike.User.{
  Codes, find_code, store_code, UserState, code_gen, verified, handle_mobile_code_req,
  handle_login_req, register,
}

bytes_eq_refl : (xs : Bytes) → bytes_eq xs xs ≡ true
bytes_eq_refl xs = (bytes_eq_iff xs xs).1 refl

differ_other :
    (k mobile other : Bytes)
    → bytes_eq k other ≡ true
    → bytes_eq k mobile ≡ false
    → bytes_eq mobile other ≡ false
differ_other k mobile other hit differ = elim (Bool-cases (bytes_eq mobile other)) [
  | inr miss ↦ miss
  | inl same ↦
      let key : k ≡ mobile =
        (bytes_eq_iff k other).0 hit ∙ sym ((bytes_eq_iff mobile other).0 same) in
      let clash : true ≡ false = sym ((bytes_eq_iff k mobile).1 key) ∙ differ in absurd (cc)
]

-- A code stored for a number is found for it, and for the others what was found before.
pub find_code-store_code :
    (mobile other : Bytes) (icode : ℕ) (m : Codes)
    → find_code other (store_code mobile icode m)
      ≡ (if bytes_eq mobile other then some icode else find_code other m)
unfolding find_code store_code
find_code-store_code mobile other icode [] = refl
find_code-store_code mobile other icode ((k, v) ∷ m) = elim (Bool-cases (bytes_eq k mobile)) [
  | inl same ↦
      let key = (bytes_eq_iff k mobile).0 same in
      rw (same, find_code)
        (elim (Bool-cases (bytes_eq mobile other)) [
          | inl hit ↦ rw (ap (λ (z : Bytes). bytes_eq z other) key ∙ hit, hit)
          | inr miss ↦ rw (ap (λ (z : Bytes). bytes_eq z other) key ∙ miss, miss)
        ])
  | inr differ ↦
      rw (differ, find_code)
        (elim (Bool-cases (bytes_eq k other)) [
          | inl hit ↦
              let miss : bytes_eq mobile other ≡ false = differ_other k mobile other hit differ in
              rw (hit, miss)
          | inr miss ↦ rw miss (find_code-store_code mobile other icode m)
        ])
]

-- A validation code has six digits, from 100000 to 999998: 999999 is never drawn.
pub code_gen-bounds : (r : ℕ) → (100000 ≤ code_gen r) × (code_gen r < 999999)
unfolding code_gen
code_gen-bounds r = (omega arith, omega arith)

module _ {W : Type 0} (sql : Mysql W) (rand : W → ℕ × W) (conf : ConnectArgs) where
  -- After a number was sent a code, that code is the one that passes its login: with it the user is
  -- registered, and the answer is what the database comes to; any other code is answered with
  -- invalid data, and touches neither the codes nor the database.
  pub login-code :
      (mobile : Bytes) (icode sn : ℕ) (st : UserState W)
      → let (sent, w) = rand st.world in
        let (st1, sn1) = (handle_mobile_code_req sql rand conf mobile (st, sn)).1 in
        handle_login_req sql rand conf mobile icode (st1, sn1) ≡ (
          if icode == code_gen sent
          then (do
            (e, w') ← register sql rand conf mobile w
            let (rsp, sn2) = new_login_rsp_ev (error_code e) sn1
            ok (rsp, (record st1 { world = w' }, sn2)))
          else (let (rsp, sn2) = new_login_rsp_ev (error_code invalid_data) sn1 in
              ok (rsp, (st1, sn2))))
  unfolding handle_login_req handle_mobile_code_req verified
  login-code mobile icode sn st =
      let code = code_gen (rand st.world).0 in
      let found : find_code mobile (store_code mobile code st.m2c) ≡ some code =
        find_code-store_code mobile mobile code st.m2c
        ∙ ap (λ (b : Bool). if b then some code else find_code mobile st.m2c)
            (bytes_eq_refl mobile) in
      rw found
