-- ===== src/Client/Overrun.antt =====
-- Responses whose length field is not that of their body, as `server_msg_cb` of src/client/client.cc
-- reads them.
use shared_bike.Base.{◌≤◌, ℕ, ◌<◌, ◌≡◌, refl, ◌++◌, Bytes, take, ok, fault, out_of_bounds, Outcome}
use shared_bike.Wire.{message_header, put_u16, put_u32}
use shared_bike.Protobuf.{Protobuf}
use shared_bike.Client.{Client}

-- A message that names `len` as the length of its body.
abbrev pub named : ℕ → ℕ → Bytes → Bytes
named eid len body = message_header ++ put_u16 eid ++ put_u32 len ++ body

named_magic :
    (eid len : ℕ) (body rest : Bytes) → take 4 (named eid len body ++ rest) ≡ message_header
named_magic eid len body rest = refl

-- A callback that goes on where the body that is named fits the array, and reads past it elsewhere.
abbrev ReadsTo : ℕ → Outcome Client → Type 0
ReadsTo len (ok c) = len ≤ 1014
ReadsTo len (fault x) = (1014 < len) × (x ≡ out_of_bounds)
