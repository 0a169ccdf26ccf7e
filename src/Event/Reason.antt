-- ===== src/Event/Reason.antt =====
-- `getReasonByErrorCode` against the enumerators of `EErrorCode`.
use shared_bike.Base.{
  ℕ, ◌≡◌, refl, sym, ap, ◌∙◌, ◌≢◌, ◌⊎◌, inl, inr, some, Bytes, codes, arith, false, ◌==◌, ==_iff,
  Bool-cases,
}
use shared_bike.Event.{
  ErrorCode, success, invalid_msg, invalid_data, method_not_allowed, process_failed, bike_is_taken,
  bike_is_running, bike_is_damaged, err_null, error_code, get_reason_by_error_code,
}

-- The reason that each error code stands for.
abbrev pub reason_of : ErrorCode → Bytes
reason_of success = codes "T_OK."
reason_of invalid_msg = codes "Invalid message."
reason_of invalid_data = codes "Invalid data."
reason_of method_not_allowed = codes "Method not allowed."
reason_of process_failed = codes "Process failed."
reason_of bike_is_taken = codes "Bike is taken."
reason_of bike_is_running = codes "Bike is running."
reason_of bike_is_damaged = codes "Bike is damaged."
reason_of err_null = codes "Undefined."

pub get_reason-error_code :
    (e : ErrorCode) → get_reason_by_error_code (error_code e) ≡ some (reason_of e)
unfolding get_reason_by_error_code
get_reason-error_code success = refl
get_reason-error_code invalid_msg = refl
get_reason-error_code invalid_data = refl
get_reason-error_code method_not_allowed = refl
get_reason-error_code process_failed = refl
get_reason-error_code bike_is_taken = refl
get_reason-error_code bike_is_running = refl
get_reason-error_code bike_is_damaged = refl
get_reason-error_code err_null = refl

get_reason_other :
    (c : ℕ)
    → ((e : ErrorCode) → error_code e ≢ c)
    → get_reason_by_error_code c ≡ some (codes "Undefined.")
unfolding get_reason_by_error_code
get_reason_other c h = ground (
  arith,
  h success,
  h invalid_msg,
  h invalid_data,
  h method_not_allowed,
  h process_failed,
  h bike_is_taken,
  h bike_is_running,
  h bike_is_damaged,
)

abbrev Known : ℕ → Type 0
Known c = (e : ErrorCode) × (error_code e ≡ c)

abbrev Foreign : ℕ → Type 0
Foreign c = (e : ErrorCode) → error_code e ≢ c

foreign :
    (c : ℕ)
    → error_code success ≢ c
    → error_code invalid_msg ≢ c
    → error_code invalid_data ≢ c
    → error_code method_not_allowed ≢ c
    → error_code process_failed ≢ c
    → error_code bike_is_taken ≢ c
    → error_code bike_is_running ≢ c
    → error_code bike_is_damaged ≢ c
    → error_code err_null ≢ c
    → Foreign c
foreign c h0 h1 h2 h3 h4 h5 h6 h7 h8 success = h0
foreign c h0 h1 h2 h3 h4 h5 h6 h7 h8 invalid_msg = h1
foreign c h0 h1 h2 h3 h4 h5 h6 h7 h8 invalid_data = h2
foreign c h0 h1 h2 h3 h4 h5 h6 h7 h8 method_not_allowed = h3
foreign c h0 h1 h2 h3 h4 h5 h6 h7 h8 process_failed = h4
foreign c h0 h1 h2 h3 h4 h5 h6 h7 h8 bike_is_taken = h5
foreign c h0 h1 h2 h3 h4 h5 h6 h7 h8 bike_is_running = h6
foreign c h0 h1 h2 h3 h4 h5 h6 h7 h8 bike_is_damaged = h7
foreign c h0 h1 h2 h3 h4 h5 h6 h7 h8 err_null = h8

differ : (a c : ℕ) → (a == c) ≡ false → a ≢ c
differ a c h = λ e. absurd (ground (arith, e))

Known-Foreign : (c : ℕ) → Known c ⊎ Foreign c
Known-Foreign c = elim (Bool-cases (error_code success == c)) [
  | inl e ↦ inl (success, (==_iff (error_code success) c).0 e)
  | inr h0 ↦ elim (Bool-cases (error_code invalid_msg == c)) [
    | inl e ↦ inl (invalid_msg, (==_iff (error_code invalid_msg) c).0 e)
    | inr h1 ↦ elim (Bool-cases (error_code invalid_data == c)) [
      | inl e ↦ inl (invalid_data, (==_iff (error_code invalid_data) c).0 e)
      | inr h2 ↦ elim (Bool-cases (error_code method_not_allowed == c)) [
        | inl e ↦ inl (method_not_allowed, (==_iff (error_code method_not_allowed) c).0 e)
        | inr h3 ↦ elim (Bool-cases (error_code process_failed == c)) [
          | inl e ↦ inl (process_failed, (==_iff (error_code process_failed) c).0 e)
          | inr h4 ↦ elim (Bool-cases (error_code bike_is_taken == c)) [
            | inl e ↦ inl (bike_is_taken, (==_iff (error_code bike_is_taken) c).0 e)
            | inr h5 ↦ elim (Bool-cases (error_code bike_is_running == c)) [
              | inl e ↦ inl (bike_is_running, (==_iff (error_code bike_is_running) c).0 e)
              | inr h6 ↦ elim (Bool-cases (error_code bike_is_damaged == c)) [
                | inl e ↦ inl (bike_is_damaged, (==_iff (error_code bike_is_damaged) c).0 e)
                | inr h7 ↦ elim (Bool-cases (error_code err_null == c)) [
                  | inl e ↦ inl (err_null, (==_iff (error_code err_null) c).0 e)
                  | inr h8 ↦ inr (
                      foreign c (differ (error_code success) c h0)
                        (differ (error_code invalid_msg) c h1)
                        (differ (error_code invalid_data) c h2)
                        (differ (error_code method_not_allowed) c h3)
                        (differ (error_code process_failed) c h4)
                        (differ (error_code bike_is_taken) c h5)
                        (differ (error_code bike_is_running) c h6)
                        (differ (error_code bike_is_damaged) c h7)
                        (differ (error_code err_null) c h8))
                ]
              ]
            ]
          ]
        ]
      ]
    ]
  ]
]

-- The lookup ends inside its table for every number: the code of an enumerator has the reason of
-- that enumerator, and any other number has "Undefined.".
pub get_reason_total :
    (c : ℕ)
    → ((e : ErrorCode) × (error_code e ≡ c) × (get_reason_by_error_code c ≡ some (reason_of e)))
      ⊎ (((e : ErrorCode) → error_code e ≢ c)
          × (get_reason_by_error_code c ≡ some (codes "Undefined.")))
get_reason_total c = elim (Known-Foreign c) [
  | inl (e, h) ↦ inl (e, h, ap get_reason_by_error_code (sym h) ∙ get_reason-error_code e)
  | inr other ↦ inr (other, get_reason_other c other)
]
