-- ===== src/Demo.antt =====
-- The demonstrations in demo/ and the client of tests/libevent_protobuf/: an echo server over libevent,
-- its two clients, and a message that is written and read back. Their messages of bike.proto are here.
pub mod Echo
pub mod Terminal
pub mod Records
use shared_bike.Base.{◌≡◌, ℕ, ◌^◌, ◌<◌, Option, none, some, List, [], ◌∷◌, Bytes}
use shared_bike.Protobuf.{Message, i32_range}

pub record ListAccountRecordsRequest : Type 0 where
  pub mobile : Bytes

pub record AccountRecord : Type 0 where
  pub type : ℕ
  pub limit : ℕ
  pub timestamp : ℕ

pub record ListAccountRecordsResponse : Type 0 where
  pub code : ℕ
  pub desc : Bytes
  pub records : List AccountRecord

abbrev pub FitsListRequest : ListAccountRecordsRequest → Type 0
FitsListRequest m = Unit {0}

abbrev pub FitsRecords : List AccountRecord → Type 0
FitsRecords [] = Unit {0}
FitsRecords (r ∷ rs) =
    (r.type < i32_range) × (r.limit < i32_range) × (r.timestamp < 2 ^ 64) × FitsRecords rs

abbrev pub FitsListResponse : ListAccountRecordsResponse → Type 0
FitsListResponse m = (m.code < i32_range) × FitsRecords m.records

-- `ParseFromString` with its result ignored: where it fails, `partial` is what the message holds then.
abbrev pub parsed_into : {A : Type 0} {Fits : A → Type 0} → Message A Fits → (Bytes → A) → Bytes → A
parsed_into msg partial text = elim (msg.parse text) [ none ↦ partial text | some a ↦ a ]

pub parsed_into-serialize :
    {A : Type 0} {Fits : A → Type 0} (msg : Message A Fits) (partial : Bytes → A) (a : A)
    → Fits a
    → parsed_into msg partial (msg.serialize a) ≡ a
parsed_into-serialize msg partial a fits = rw (parsed_into, msg.parse-serialize a fits)
