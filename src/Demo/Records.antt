-- ===== src/Demo/Records.antt =====
-- demo/protobuf/demo.cc: a message with five records, written and read back.
use shared_bike.Base.{
  ap, ℕ, zero, suc, ◌+◌, ◌*◌, ◌^◌, ◌<◌, ◌≡◌, arith, List, [], ◌∷◌, map, Bytes, codes,
}
use shared_bike.Protobuf.{Message}
use shared_bike.Demo.{
  parsed_into-serialize, AccountRecord, ListAccountRecordsResponse, FitsListResponse, parsed_into,
}

-- A line that is printed.
pub data Line : Type 0 where
  records_before records_after code limit : ℕ → Line

-- `length`, as `records_size()`.
unfoldable pub records_size : List AccountRecord → ℕ
records_size [] = 0
records_size (r ∷ rs) = records_size rs + 1

-- The loop that adds `left` records from `i` on, with the time of each round.
unfoldable pub add_records : (ℕ → ℕ) → ℕ → ℕ → List AccountRecord
add_records time zero i = []
add_records time (suc left) i =
    record { type = 0; limit = i * 100; timestamp = time i } ∷ add_records time left (i + 1)

-- What the receiver prints.
unfoldable pub print_response : ListAccountRecordsResponse → List Line
unfolding records_size
print_response larr =
    records_after (records_size larr.records)
    ∷ code larr.code
    ∷ map (λ r. limit r.limit) larr.records

-- `main`: what is printed.
unfoldable pub demo_main :
    Message ListAccountRecordsResponse FitsListResponse
    → (Bytes → ListAccountRecordsResponse)
    → (ℕ → ℕ)
    → List Line
unfolding add_records print_response
demo_main msg partial time =
    let sent : ListAccountRecordsResponse = record {
      code = 200;
      desc = codes "ok";
      records = add_records time 5 0;
    } in
    records_before (records_size sent.records)
    ∷ print_response (parsed_into msg partial (msg.serialize sent))

-- Whatever the encoding and the times of 64 bits, the five records come back.
pub demo_main_lem :
    (msg : Message ListAccountRecordsResponse FitsListResponse)
    (partial : Bytes → ListAccountRecordsResponse) (time : ℕ → ℕ)
    → ((i : ℕ) → time i < 2 ^ 64)
    → demo_main msg partial time
      ≡ records_before 5
        ∷ records_after 5
        ∷ code 200
        ∷ limit 0
        ∷ limit 100
        ∷ limit 200
        ∷ limit 300
        ∷ limit 400
        ∷ []
unfolding demo_main add_records print_response records_size
demo_main_lem msg partial time fits =
    let sent : ListAccountRecordsResponse = record {
      code = 200;
      desc = codes "ok";
      records = add_records time 5 0;
    } in
    let fields : FitsListResponse sent = (
      omega arith,
      (
        omega arith,
        omega arith,
        fits 0,
        (
          omega arith,
          omega arith,
          fits 1,
          (
            omega arith,
            omega arith,
            fits 2,
            (omega arith, omega arith, fits 3, (omega arith, omega arith, fits 4, tt)),
          ),
        ),
      ),
    ) in
    ap (λ r. records_before 5 ∷ print_response r) (parsed_into-serialize msg partial sent fields)
