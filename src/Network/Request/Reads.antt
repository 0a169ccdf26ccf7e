-- ===== src/Network/Request/Reads.antt =====
-- The two buffers that `handle_request` of src/NetworkInterface.cc fills.
use shared_bike.Base.{
  write_chars, ℕ, ◌+◌, ◌≤◌, ◌<◌, ◌≡◌, sym, ap, ◌∙◌, [], ◌∷◌, ◌++◌, arith, min, Bytes, length,
  length-append, take, drop, blit, length-blit, take-blit, append_cancel_take, append_cancel_drop,
  take-min, drop-min, ok, take-blit_before,
}
use shared_bike.Network.{Platform}

-- A read takes bytes off the front of the input.
pub read-take :
    (pf : Platform) (n : ℕ) (input : Bytes)
    → pf.bufferevent_read n input ≡ (take n input, drop n input)
read-take pf n input =
    let whole = pf.read_split n input in
    let size = pf.read_length n input in
    let got = (pf.bufferevent_read n input).0 in
    let left = (pf.bufferevent_read n input).1 in
    let front : got ≡ take n input =
      sym (append_cancel_take got left (min n (length input)) size)
      ∙ (ap (take (min n (length input))) whole ∙ take-min n input) in
    let back : left ≡ drop n input =
      sym (append_cancel_drop got left (min n (length input)) size)
      ∙ (ap (drop (min n (length input))) whole ∙ drop-min n input) in
    λ i. (front i, back i)

-- A buffer whose first bytes are `p`.
pub record Holds (buf : Bytes) (size : ℕ) (p : Bytes) : Type 0 where
  pub size_eq : length buf ≡ size
  pub prefix : take (length p) buf ≡ p

-- Bytes written behind the first ones extend them.
pub write-Holds :
    (buf : Bytes) (size : ℕ) (p src : Bytes)
    → Holds buf size p
    → length p + length src ≤ size
    → (write_chars buf (length p) src ≡ ok (blit buf (length p) src))
      × Holds (blit buf (length p) src) size (p ++ src)
unfolding write_chars
write-Holds buf size p src h fits = (
  ground (arith, h.size_eq),
  record {
    size_eq = length-blit buf (length p) src ∙ h.size_eq;
    prefix = rw (length-append p src) (
        rw (take-blit buf (length p) src (omega (arith, h.size_eq)))
          (ap (λ front. front ++ src) h.prefix));
  },
)

-- The terminator behind them leaves them.
pub terminate-Holds :
    (buf : Bytes) (size : ℕ) (p : Bytes)
    → Holds buf size p
    → length p < size
    → (write_chars buf (length p) (0 ∷ []) ≡ ok (blit buf (length p) (0 ∷ [])))
      × Holds (blit buf (length p) (0 ∷ [])) size p
unfolding write_chars
terminate-Holds buf size p h fits = (
  ground (arith, h.size_eq),
  record {
    size_eq = length-blit buf (length p) (0 ∷ []) ∙ h.size_eq;
    prefix = take-blit_before buf (length p) (0 ∷ []) ∙ h.prefix;
  },
)
