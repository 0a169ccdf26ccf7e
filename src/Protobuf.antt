-- ===== src/Protobuf.antt =====
-- The messages of src/protocol/bike.proto that the server handles. Their C++ classes, bike.pb.h,
-- are generated by protoc and not in the repository: `Message` is what the code relies on of a
-- generated class. An i32 field is its 32-bit pattern, a string its bytes.
use shared_bike.Base.{ℕ, ◌^◌, ◌<◌, ◌≡◌, Option, some, Bytes, length}

pub record MobileRequest : Type 0 where
  pub mobile : Bytes

pub record MobileResponse : Type 0 where
  pub code : ℕ
  pub icode : ℕ
  pub data_ : Bytes

pub record LoginRequest : Type 0 where
  pub mobile : Bytes
  pub icode : ℕ

pub record LoginResponse : Type 0 where
  pub code : ℕ
  pub desc : Bytes

abbrev pub i32_range : ℕ
i32_range = 2 ^ 32

-- The fields of a message hold what their C++ types hold.
abbrev pub FitsMobileRequest : MobileRequest → Type 0
FitsMobileRequest m = Unit {0}

abbrev pub FitsMobileResponse : MobileResponse → Type 0
FitsMobileResponse m = (m.code < i32_range) × (m.icode < i32_range)

abbrev pub FitsLoginRequest : LoginRequest → Type 0
FitsLoginRequest m = m.icode < i32_range

abbrev pub FitsLoginResponse : LoginResponse → Type 0
FitsLoginResponse m = m.code < i32_range

-- A generated message class: `ByteSize`, `SerializeToArray` and `ParseFromArray`.
pub record Message (A : Type 0) (Fits : A → Type 0) : Type 0 where
  pub byte_size : A → ℕ
  pub serialize : A → Bytes
  pub parse : Bytes → Option A
  pub length-serialize : (a : A) → length (serialize a) ≡ byte_size a
  pub parse-serialize : (a : A) → Fits a → parse (serialize a) ≡ some a

pub record Protobuf : Type 0 where
  pub mobile_request : Message MobileRequest FitsMobileRequest
  pub mobile_response : Message MobileResponse FitsMobileResponse
  pub login_request : Message LoginRequest FitsLoginRequest
  pub login_response : Message LoginResponse FitsLoginResponse
