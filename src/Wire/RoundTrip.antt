-- ===== src/Wire/RoundTrip.antt =====
-- Reading back what was written through the casts.
use shared_bike.Base.{ℕ, ◌^◌, ◌<◌, ◌≡◌, ◌++◌, Bytes, arith}
use shared_bike.Wire.{put_u16, put_u32, load_u16, load_u32}

pub load_u16-put_u16 : (v : ℕ) (rest : Bytes) → v < 2 ^ 16 → load_u16 (put_u16 v ++ rest) ≡ v
unfolding load_u16 put_u16
load_u16-put_u16 v rest h = omega arith

pub load_u32-put_u32 : (v : ℕ) (rest : Bytes) → v < 2 ^ 32 → load_u32 (put_u32 v ++ rest) ≡ v
unfolding load_u32 put_u32
load_u32-put_u32 v rest h = omega arith
