-- ===== src/Startup.antt =====
-- The start of the server: `main` of src/main.cc with `Iniconfig` of src/util/, the event base and the
-- listener of src/NetworkInterface.cc, and the loop that `main` ends in.
pub mod Config
pub mod Listener
pub mod Main
pub mod Ends
pub mod Loop
pub mod Codes
use mathlib.Core.Option
use shared_bike.Base.{◌≡◌, none, some, ℕ, ◌-◌, ◌^◌, Bool, Option, Bytes}

-- What is in an option, or a value of its own.
abbrev pub or_default : {A : Type 0} → A → Option A → A
or_default a none = a
or_default a (some x) = x

-- What the code relies on of iniparser, on a dictionary read from a file, and of log4cpp. As
-- third/include/iniparser/iniparser.h documents it, both lookups go by the string at a key, and
-- `iniparser_getint` gives it as `strtol` converts it.
pub record Environment (D : Type 0) : Type 0 where
  pub iniparser_load : Bytes → Option D
  pub iniparser_getstring : D → Bytes → Bytes → Bytes
  -- an int, as its 32-bit pattern
  pub iniparser_getint : D → Bytes → ℕ → ℕ
  -- the string at a key, if the file has one
  pub entry : D → Bytes → Option Bytes
  pub strtol : Bytes → ℕ
  pub getstring-entry :
      (d : D) (key text : Bytes) → iniparser_getstring d key text ≡ or_default text (entry d key)
  pub getint-entry :
      (d : D) (key : Bytes) (n : ℕ)
      → iniparser_getint d key n ≡ or_default n (Option.map strtol (entry d key))
  -- whether `PropertyConfigurator::configure` throws
  pub configure_throws : Bytes → Bool

-- An int below zero, as its 32-bit pattern.
abbrev pub minus : ℕ → ℕ
minus n = 2 ^ 32 - n
