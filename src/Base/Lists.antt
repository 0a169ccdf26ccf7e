-- ===== src/Base/Lists.antt =====
-- Lists measured and indexed by native numbers, byte buffers among them.
use Prim.Native.Nat.{ℕ, zero, suc, ◌+◌, ◌-◌, ◌≤◌, min}
use Prim.Native.Char.{code}
use Prim.Native.String.{String}
use mathlib.Core.Path.{◌≡◌, refl, ap, ap₂}
use mathlib.Core.Logic.{◌↔◌}
use mathlib.Core.Bool.{Bool, true, false, ◌&&◌}
use mathlib.Core.List.{List, [], ◌∷◌, ◌++◌}
use mathlib.Core.Option.{Option, none, some}
use native.Mathlib.Omega.{arith}
use shared_bike.Base.Tests.{◌==◌, if◌then◌else◌}

module _ {ℓ} {A : Type ℓ} where
  abbrev pub length : List A → ℕ
  length [] = 0
  length (x ∷ xs) = suc (length xs)

  abbrev pub get_elem? : List A → ℕ → Option A
  get_elem? [] i = none
  get_elem? (x ∷ xs) zero = some x
  get_elem? (x ∷ xs) (suc i) = get_elem? xs i

  -- A write out of bounds changes nothing.
  abbrev pub set : List A → ℕ → A → List A
  set [] i v = []
  set (x ∷ xs) zero v = v ∷ xs
  set (x ∷ xs) (suc i) v = x ∷ set xs i v

  abbrev pub take : ℕ → List A → List A
  take zero xs = []
  take (suc n) [] = []
  take (suc n) (x ∷ xs) = x ∷ take n xs

  abbrev pub drop : ℕ → List A → List A
  drop zero xs = xs
  drop (suc n) [] = []
  drop (suc n) (x ∷ xs) = drop n xs

  abbrev pub replicate : ℕ → A → List A
  replicate zero a = []
  replicate (suc n) a = a ∷ replicate n a

  pub length-append : (xs ys : List A) → length (xs ++ ys) ≡ length xs + length ys
  length-append [] ys = omega arith
  length-append (x ∷ xs) ys = omega (arith, length-append xs ys)

  pub length-take : (n : ℕ) (xs : List A) → length (take n xs) ≡ min n (length xs)
  length-take zero xs = omega arith
  length-take (suc n) [] = omega arith
  length-take (suc n) (x ∷ xs) = omega (arith, length-take n xs)

  pub length-drop : (n : ℕ) (xs : List A) → length (drop n xs) ≡ length xs - n
  length-drop zero xs = omega arith
  length-drop (suc n) [] = omega arith
  length-drop (suc n) (x ∷ xs) = omega (arith, length-drop n xs)

  pub length-replicate : (n : ℕ) (a : A) → length (replicate n a) ≡ n
  length-replicate zero a = refl
  length-replicate (suc n) a = ap suc (length-replicate n a)

  pub length-set : (xs : List A) (i : ℕ) (v : A) → length (set xs i v) ≡ length xs
  length-set [] i v = refl
  length-set (x ∷ xs) zero v = refl
  length-set (x ∷ xs) (suc i) v = ap suc (length-set xs i v)

  pub take-append-drop : (n : ℕ) (xs : List A) → take n xs ++ drop n xs ≡ xs
  take-append-drop zero xs = refl
  take-append-drop (suc n) [] = refl
  take-append-drop (suc n) (x ∷ xs) = rw (take-append-drop n xs)

  pub take_all : (n : ℕ) (xs : List A) → length xs ≤ n → take n xs ≡ xs
  take_all zero [] h = refl
  take_all zero (x ∷ xs) h = absurd (omega arith)
  take_all (suc n) [] h = refl
  take_all (suc n) (x ∷ xs) h = rw (take_all n xs (omega arith))

  pub take-append_left : (n : ℕ) (xs ys : List A) → n ≤ length xs → take n (xs ++ ys) ≡ take n xs
  take-append_left zero xs ys h = refl
  take-append_left (suc n) [] ys h = absurd (omega arith)
  take-append_left (suc n) (x ∷ xs) ys h = rw (take-append_left n xs ys (omega arith))

  pub drop-append_left :
      (n : ℕ) (xs ys : List A) → n ≤ length xs → drop n (xs ++ ys) ≡ drop n xs ++ ys
  drop-append_left zero xs ys h = refl
  drop-append_left (suc n) [] ys h = absurd (omega arith)
  drop-append_left (suc n) (x ∷ xs) ys h = drop-append_left n xs ys (omega arith)

  pub take-append_exact : (xs ys : List A) → take (length xs) (xs ++ ys) ≡ xs
  take-append_exact [] ys = refl
  take-append_exact (x ∷ xs) ys = rw (take-append_exact xs ys)

  pub drop-append_exact : (xs ys : List A) → drop (length xs) (xs ++ ys) ≡ ys
  drop-append_exact [] ys = refl
  drop-append_exact (x ∷ xs) ys = drop-append_exact xs ys

-- A `char` buffer: its bytes.
abbrev pub Bytes : Type 0
Bytes = List ℕ

-- The code points of an ASCII literal.
abbrev pub codes : String → Bytes
codes String.[] = []
codes (String.◌∷◌ c s) = code c ∷ codes s

unfoldable pub bytes_eq : Bytes → Bytes → Bool
bytes_eq [] [] = true
bytes_eq [] (y ∷ ys) = false
bytes_eq (x ∷ xs) [] = false
bytes_eq (x ∷ xs) (y ∷ ys) = (x == y) && bytes_eq xs ys

pub bytes_eq_iff : (xs ys : Bytes) → (bytes_eq xs ys ≡ true) ↔ (xs ≡ ys)
unfolding bytes_eq
bytes_eq_iff [] [] = ground arith
bytes_eq_iff [] (y ∷ ys) = ground arith
bytes_eq_iff (x ∷ xs) [] = ground arith
bytes_eq_iff (x ∷ xs) (y ∷ ys) = ground (arith, bytes_eq_iff xs ys)

-- The bytes up to the first NUL, as `%s` and `strcmp` see a string.
unfoldable pub c_str : Bytes → Bytes
c_str [] = []
c_str (x ∷ xs) = if x == 0 then [] else x ∷ c_str xs

pub length-c_str : (xs : Bytes) → length (c_str xs) ≤ length xs
unfolding c_str
length-c_str [] = omega arith
length-c_str (x ∷ xs) = ground (arith, length-c_str xs)

-- `memcpy(buf + at, src, length src)` within the bounds of `buf`; bytes past its end are dropped.
unfoldable pub blit : Bytes → ℕ → Bytes → Bytes
blit [] at src = []
blit (b ∷ buf) zero [] = b ∷ buf
blit (b ∷ buf) zero (s ∷ src) = s ∷ blit buf zero src
blit (b ∷ buf) (suc at) src = b ∷ blit buf at src

pub length-blit : (buf : Bytes) (at : ℕ) (src : Bytes) → length (blit buf at src) ≡ length buf
unfolding blit
length-blit [] at src = refl
length-blit (b ∷ buf) zero [] = refl
length-blit (b ∷ buf) zero (s ∷ src) = ap suc (length-blit buf zero src)
length-blit (b ∷ buf) (suc at) src = ap suc (length-blit buf at src)

-- A write in bounds replaces exactly its own bytes.
pub blit_lem :
    (pre mid suf src : Bytes)
    → length src ≡ length mid
    → blit (pre ++ mid ++ suf) (length pre) src ≡ pre ++ src ++ suf
unfolding blit
blit_lem [] [] [] [] h = refl
blit_lem [] [] (x ∷ suf) [] h = refl
blit_lem [] [] suf (s ∷ src) h = absurd (omega arith)
blit_lem [] (m ∷ mid) suf [] h = absurd (omega arith)
blit_lem [] (m ∷ mid) suf (s ∷ src) h = rw (blit_lem [] mid suf src (omega arith))
blit_lem (p ∷ pre) mid suf src h = rw (blit_lem pre mid suf src h)

-- What follows `at` written bytes: the prefix grows by the bytes that are written next.
pub take-blit :
    (buf : Bytes) (at : ℕ) (src : Bytes)
    → at + length src ≤ length buf
    → take (at + length src) (blit buf at src) ≡ take at buf ++ src
unfolding blit
take-blit [] zero [] h = refl
take-blit [] zero (s ∷ src) h = absurd (omega arith)
take-blit [] (suc at) src h = absurd (omega arith)
take-blit (b ∷ buf) zero [] h = refl
take-blit (b ∷ buf) zero (s ∷ src) h =
    let e : 0 + suc (length src) ≡ suc (0 + length src) = omega arith in
    rw e (rw (take-blit buf zero src (omega arith)))
take-blit (b ∷ buf) (suc at) src h =
    let e : suc at + length src ≡ suc (at + length src) = omega arith in
    rw e (rw (take-blit buf at src (omega arith)))

-- A write leaves the bytes in front of it.
pub take-blit_before :
    (buf : Bytes) (at : ℕ) (src : Bytes) → take at (blit buf at src) ≡ take at buf
unfolding blit
take-blit_before [] zero src = refl
take-blit_before [] (suc at) src = refl
take-blit_before (b ∷ buf) zero src = refl
take-blit_before (b ∷ buf) (suc at) src = rw (take-blit_before buf at src)

module _ {ℓ} {A : Type ℓ} where
  pub append_cancel_take : (xs ys : List A) (n : ℕ) → length xs ≡ n → take n (xs ++ ys) ≡ xs
  append_cancel_take xs ys n h = rw (← h) (take-append_exact xs ys)

  pub append_cancel_drop : (xs ys : List A) (n : ℕ) → length xs ≡ n → drop n (xs ++ ys) ≡ ys
  append_cancel_drop xs ys n h = rw (← h) (drop-append_exact xs ys)

  pub take-min : (n : ℕ) (xs : List A) → take (min n (length xs)) xs ≡ take n xs
  take-min zero [] = refl
  take-min zero (x ∷ xs) = let e : min 0 (suc (length xs)) ≡ 0 = omega arith in rw e
  take-min (suc n) [] = let e : min (suc n) 0 ≡ 0 = omega arith in rw e
  take-min (suc n) (x ∷ xs) =
      let e : min (suc n) (suc (length xs)) ≡ suc (min n (length xs)) = omega arith in
      rw e (rw (take-min n xs))

  pub drop-min : (n : ℕ) (xs : List A) → drop (min n (length xs)) xs ≡ drop n xs
  drop-min zero [] = refl
  drop-min zero (x ∷ xs) = let e : min 0 (suc (length xs)) ≡ 0 = omega arith in rw e
  drop-min (suc n) [] = let e : min (suc n) 0 ≡ 0 = omega arith in rw e
  drop-min (suc n) (x ∷ xs) =
      let e : min (suc n) (suc (length xs)) ≡ suc (min n (length xs)) = omega arith in
      rw e (drop-min n xs)

  pub drop_all : (n : ℕ) (xs : List A) → length xs ≤ n → drop n xs ≡ []
  drop_all zero [] h = refl
  drop_all zero (x ∷ xs) h = absurd (omega arith)
  drop_all (suc n) [] h = refl
  drop_all (suc n) (x ∷ xs) h = drop_all n xs (omega arith)

  pub take-length : (n : ℕ) (xs : List A) → n ≤ length xs → length (take n xs) ≡ n
  take-length n xs h = omega (arith, length-take n xs)

-- Two ways to cut one list: what the first piece lacks of `f` stands at the front of `i`.
module _ {ℓ} {A : Type ℓ} where
  pub split_at :
      (h i f j : List A)
      → h ++ i ≡ f ++ j
      → length h ≤ length f
      → (h ++ take (length f - length h) i ≡ f) × (drop (length f - length h) i ≡ j)
  split_at [] i f j e le =
      let n : length f - 0 ≡ length f = omega arith in
      rw (n, e) (take-append_exact f j, drop-append_exact f j)
  split_at (x ∷ h) i [] j e le = absurd (omega arith)
  split_at (x ∷ h) i (y ∷ f) j e le =
      let n : suc (length f) - suc (length h) ≡ length f - length h = omega arith in
      let heads : x ≡ y = cc in
      let (front, back) = split_at h i f j (cc) (omega arith) in rw n (ap₂ ◌∷◌ heads front, back)
