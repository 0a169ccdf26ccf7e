-- ===== src/Server/Count.antt =====
-- The events of each session in a list of events, and what holds of every event of a list.
use shared_bike.Base.{
  ℕ, zero, suc, ◌+◌, ◌≤◌, ◌≡◌, refl, sym, ap, ◌∙◌, subst, true, false, Bool-cases, inl, inr, some,
  some_inj, List, [], ◌∷◌, ◌++◌, ◌==◌, arith, if◌then◌else◌, get_elem?,
}
use shared_bike.Wire.{frame}
use shared_bike.Protobuf.{Protobuf}
use shared_bike.Event.{Event, serialized}
use shared_bike.Network.Response.Flush.{is_for, any_for, frames_for}
use shared_bike.Server.{remove}

abbrev pub one_for : ℕ → Event → ℕ
one_for at ev = if is_for at ev.args then 1 else 0

-- How many events the session at this address has in a list.
abbrev pub count_for : ℕ → List Event → ℕ
count_for at [] = 0
count_for at (ev ∷ evs) = one_for at ev + count_for at evs

pub count_for-append :
    (at : ℕ) (xs ys : List Event) → count_for at (xs ++ ys) ≡ count_for at xs + count_for at ys
count_for-append at [] ys = omega arith
count_for-append at (x ∷ xs) ys = omega (arith, count_for-append at xs ys)

pub count_for-remove :
    (at : ℕ) (evs : List Event) (i : ℕ) (ev : Event)
    → get_elem? evs i ≡ some ev
    → one_for at ev + count_for at (remove evs i) ≡ count_for at evs
count_for-remove at [] i ev h = cc
count_for-remove at (x ∷ xs) zero ev h = ap (λ e. one_for at e + count_for at xs) (sym (some_inj h))
count_for-remove at (x ∷ xs) (suc i) ev h = omega (arith, count_for-remove at xs i ev h)

pub one_for-args : (at : ℕ) (ev ev' : Event) → ev'.args ≡ ev.args → one_for at ev' ≡ one_for at ev
one_for-args at ev ev' e = ap (λ a. if is_for at a then 1 else 0) e

pub one_for-own : (at : ℕ) (ev : Event) → ev.args ≡ some at → one_for at ev ≡ 1
one_for-own at ev e = ap (λ a. if is_for at a then 1 else 0) e ∙ ground arith

pub one_for-other :
    (at a : ℕ) (ev : Event) → ev.args ≡ some a → (at == a) ≡ false → one_for at ev ≡ 0
one_for-other at a ev e ne = ap (λ o. if is_for at o then 1 else 0) e ∙ rw ne refl

pub any_for-count : (at : ℕ) (evs : List Event) → any_for at evs ≡ true → 1 ≤ count_for at evs
any_for-count at [] h = cc
any_for-count at (ev ∷ evs) h = elim (Bool-cases (is_for at ev.args)) [
  | inl own ↦ rw own (omega arith)
  | inr other ↦ rw other (omega (arith, any_for-count at evs (ground (arith, other, h))))
]

pub any_for-none : (at : ℕ) (evs : List Event) → any_for at evs ≡ false → count_for at evs ≡ 0
any_for-none at [] h = refl
any_for-none at (ev ∷ evs) h = elim (Bool-cases (is_for at ev.args)) [
  | inl own ↦ ground (arith, own, h)
  | inr other ↦ rw other (omega (arith, any_for-none at evs (ground (arith, other, h))))
]

pub any_for-append :
    (at : ℕ) (evs : List Event) (ev : Event)
    → ev.args ≡ some at
    → any_for at (evs ++ ev ∷ []) ≡ true
any_for-append at [] ev e =
    let own : is_for at ev.args ≡ true = ap (is_for at) e ∙ ground arith in ground (arith, own)
any_for-append at (x ∷ xs) ev e = ground (arith, any_for-append at xs ev e)

-- The frames behind events of other sessions.
pub frames_for-last :
    (pb : Protobuf) (at : ℕ) (evs : List Event) (ev : Event)
    → count_for at evs ≡ 0
    → ev.args ≡ some at
    → frames_for pb at (evs ++ ev ∷ []) ≡ frame ev.eid (serialized pb ev.body) ++ []
frames_for-last pb at [] ev h e =
    let own : is_for at ev.args ≡ true = ap (is_for at) e ∙ ground arith in rw own refl
frames_for-last pb at (x ∷ xs) ev h e = elim (Bool-cases (is_for at x.args)) [
  | inl own ↦ absurd (ground (arith, own, h))
  | inr other ↦ rw other (frames_for-last pb at xs ev (ground (arith, other, h)) e)
]

-- Every event of a list.
abbrev pub Each : (Event → Type 0) → List Event → Type 0
Each P [] = Unit {0}
Each P (ev ∷ evs) = P ev × Each P evs

module _ (P : Event → Type 0) where
  pub Each-append : (evs : List Event) (ev : Event) → Each P evs → P ev → Each P (evs ++ ev ∷ [])
  Each-append [] ev all p = (p, tt)
  Each-append (e ∷ es) ev (q, all) p = (q, Each-append es ev all p)

  pub Each-remove : (evs : List Event) (i : ℕ) → Each P evs → Each P (remove evs i)
  Each-remove [] i all = tt
  Each-remove (e ∷ es) zero (q, all) = all
  Each-remove (e ∷ es) (suc i) (q, all) = (q, Each-remove es i all)

  pub Each-get :
      (evs : List Event) (i : ℕ) (ev : Event) → Each P evs → get_elem? evs i ≡ some ev → P ev
  Each-get [] i ev all h = cc
  Each-get (e ∷ es) zero ev (q, all) h = subst P (some_inj h) q
  Each-get (e ∷ es) (suc i) ev (q, all) h = Each-get es i ev all h
