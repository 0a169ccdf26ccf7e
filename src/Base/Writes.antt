-- ===== src/Base/Writes.antt =====
-- A write into a `char` buffer that is checked against its bounds.
use Prim.Native.Nat.{ℕ, ◌+◌, ◌≤◌}
use mathlib.Core.Path.{◌≡◌, sym, ap, ◌∙◌}
use mathlib.Core.Bool.{true}
use mathlib.Core.List.{◌++◌}
use native.Mathlib.Omega.{arith}
use shared_bike.Base.Tests.{leb, if◌then◌else◌}
use shared_bike.Base.Lists.{Bytes, length, take, blit, length-blit, take-blit}
use shared_bike.Base.Faults.{Outcome, ok, fault, out_of_bounds}

-- The bytes `src` stored at an offset of an array.
unfoldable pub write_chars : Bytes → ℕ → Bytes → Outcome Bytes
write_chars buf at src =
    if leb (at + length src) (length buf) then ok (blit buf at src) else fault out_of_bounds

-- The result of a write in bounds, of sizes known beforehand.
pub write_chars_lem :
    (buf : Bytes) (size at n : ℕ) (src : Bytes)
    → length buf ≡ size
    → length src ≡ n
    → at + n ≤ size
    → (buf' : Bytes) × (write_chars buf at src ≡ ok buf')
      × (length buf' ≡ size)
      × (take (at + n) buf' ≡ take at buf ++ src)
unfolding write_chars
write_chars_lem buf size at n src e en h =
    let fits : leb (at + length src) (length buf) ≡ true = ground arith in
    (
      blit buf at src,
      rw fits,
      length-blit buf at src ∙ e,
      ap (λ k. take (at + k) (blit buf at src)) (sym en)
          ∙ take-blit buf at src (omega (arith, e, en)),
    )
