-- ===== src/Wire.antt =====
-- The frame of the application protocol, src/NetworkInterface.h: the magic "FBEB", a 16-bit event
-- id and a 32-bit length, then the message. The casts of `header + 4` and `header + 6` to u16* and
-- i32* read and write the host's byte order, little-endian on the targets that are built (-m64).
pub mod RoundTrip
use shared_bike.Base.{ℕ, ◌+◌, ◌*◌, ◌/◌, ◌%◌, [], ◌∷◌, ◌++◌, Bytes, codes, length}

abbrev pub message_header_len : ℕ
message_header_len = 10

abbrev pub message_header : Bytes
message_header = codes "FBEB"

-- globals.h
abbrev pub max_msg_len : ℕ
max_msg_len = 367280

-- `*(u16 *)p = v` and `*(i32 *)p = v`, as the bytes that are written.
unfoldable pub put_u16 : ℕ → Bytes
put_u16 v = v % 256 ∷ v / 256 % 256 ∷ []

unfoldable pub put_u32 : ℕ → Bytes
put_u32 v = v % 256 ∷ v / 256 % 256 ∷ v / 65536 % 256 ∷ v / 16777216 % 256 ∷ []

-- `*(u16 *)p` and `*(i32 *)p`, from the bytes at `p`; an i32 is its 32-bit pattern.
unfoldable pub load_u16 : Bytes → ℕ
load_u16 (a ∷ b ∷ _) = a + 256 * b
load_u16 _ = 0

unfoldable pub load_u32 : Bytes → ℕ
load_u32 (a ∷ b ∷ c ∷ d ∷ _) = a + 256 * b + 65536 * c + 16777216 * d
load_u32 _ = 0

-- What both sides put on the wire for a message of event `eid`.
unfoldable pub frame : ℕ → Bytes → Bytes
unfolding put_u16 put_u32
frame eid body = message_header ++ put_u16 eid ++ put_u32 (length body) ++ body
