-- ===== src/Assembled/Contexts.antt =====
-- The contexts of the tasks that are queued or run, and the events that stand at them.
use shared_bike.Base.{
  ℕ, zero, suc, ◌+◌, ◌≤◌, ◌≡◌, refl, sym, ap, ◌∙◌, ◌≢◌, Bool-cases, inl, inr, Option, none, some,
  some_inj, List, [], ◌∷◌, ◌++◌, ◌==◌, ==_iff, arith, if◌then◌else◌, get_elem?, set,
}
use shared_bike.Event.{Event}
use shared_bike.ThreadPool.{Cells, Pc, looping, asleep, running, stopped, stopped_asleep}
use shared_bike.ThreadPool.Work.{work}
use shared_bike.ThreadPool.System.Fifo.{ctx_of, ctx_at}
use shared_bike.Server.{remove}

abbrev pub one : ℕ → ℕ → ℕ
one n x = if n == x then 1 else 0

pub one_own : (n : ℕ) → one n n ≡ 1
one_own n = ground arith

abbrev pub count : ℕ → List ℕ → ℕ
count n [] = 0
count n (x ∷ xs) = one n x + count n xs

pub count-append : (n : ℕ) (xs ys : List ℕ) → count n (xs ++ ys) ≡ count n xs + count n ys
count-append n [] ys = omega arith
count-append n (x ∷ xs) ys = omega (arith, count-append n xs ys)

pub count-remove :
    (n : ℕ) (xs : List ℕ) (i x : ℕ)
    → get_elem? xs i ≡ some x
    → one n x + count n (remove xs i) ≡ count n xs
count-remove n [] i x h = cc
count-remove n (y ∷ xs) zero x h = ap (λ z. one n z + count n xs) (sym (some_inj h))
count-remove n (y ∷ xs) (suc i) x h = omega (arith, count-remove n xs i x h)

-- What is counted is there.
pub count-find : (n : ℕ) (xs : List ℕ) → 1 ≤ count n xs → (i : ℕ) × (get_elem? xs i ≡ some n)
count-find n [] h = absurd (omega (arith, h))
count-find n (x ∷ xs) h = elim (Bool-cases (n == x)) [
  | inl same ↦ (0, ap some (sym ((==_iff n x).0 same)))
  | inr other ↦ let (i, at) = count-find n xs (ground (arith, other, h)) in (suc i, at)
]

-- Whether a thread runs a task with the context `n`, and how many do.
abbrev pub busy_at : ℕ → Cells → Pc → ℕ
busy_at n c looping = 0
busy_at n c asleep = 0
busy_at n c (running t) = one n (ctx_at c t)
busy_at n c stopped = 0
busy_at n c stopped_asleep = 0

abbrev pub busy : ℕ → Cells → List Pc → ℕ
busy n c [] = 0
busy n c (pc ∷ pcs) = busy_at n c pc + busy n c pcs

-- The tasks that the threads run have the same work on both heaps.
abbrev pub SameRun : Cells → Cells → List Pc → Type 0
SameRun c d pcs = (j t : ℕ) → get_elem? pcs j ≡ some (running t) → work (d t) ≡ work (c t)

busy_at-frame :
    (n : ℕ) (c d : Cells) (pc : Pc)
    → ((t : ℕ) → pc ≡ running t → work (d t) ≡ work (c t))
    → busy_at n d pc ≡ busy_at n c pc
busy_at-frame n c d looping same = refl
busy_at-frame n c d asleep same = refl
busy_at-frame n c d (running t) same = ap (λ w. one n (ctx_of w)) (same t refl)
busy_at-frame n c d stopped same = refl
busy_at-frame n c d stopped_asleep same = refl

pub busy-frame :
    (n : ℕ) (c d : Cells) (pcs : List Pc) → SameRun c d pcs → busy n d pcs ≡ busy n c pcs
busy-frame n c d [] same = refl
busy-frame n c d (pc ∷ pcs) same = omega (
  arith,
  busy_at-frame n c d pc (λ t e. same 0 t (ap some e)),
  busy-frame n c d pcs (λ j t h. same (suc j) t h),
)

pub busy-get :
    (n : ℕ) (c : Cells) (pcs : List Pc) (i : ℕ) (pc : Pc)
    → get_elem? pcs i ≡ some pc
    → busy_at n c pc ≤ busy n c pcs
busy-get n c [] i pc h = cc
busy-get n c (x ∷ pcs) zero pc h =
    let own : busy_at n c x ≡ busy_at n c pc = ap (busy_at n c) (some_inj h) in omega (arith, own)
busy-get n c (x ∷ pcs) (suc i) pc h = omega (arith, busy-get n c pcs i pc h)

-- A step of one thread, where the tasks of the others keep their work.
pub busy-set :
    (n : ℕ) (c d : Cells) (pcs : List Pc) (i : ℕ) (pc pc' : Pc)
    → get_elem? pcs i ≡ some pc
    → ((j t : ℕ) → j ≢ i → get_elem? pcs j ≡ some (running t) → work (d t) ≡ work (c t))
    → busy n d (set pcs i pc') + busy_at n c pc ≡ busy n c pcs + busy_at n d pc'
busy-set n c d [] i pc pc' h same = cc
busy-set n c d (x ∷ pcs) zero pc pc' h same =
    let own : busy_at n c x ≡ busy_at n c pc = ap (busy_at n c) (some_inj h) in
    omega (arith, own, busy-frame n c d pcs (λ j t at. same (suc j) t (omega arith) at))
busy-set n c d (x ∷ pcs) (suc i) pc pc' h same = omega (
  arith,
  busy_at-frame n c d x (λ t e. same 0 t (omega arith) (ap some e)),
  busy-set n c d pcs i pc pc' h (λ j t ne at. same (suc j) t (omega arith) at),
)

-- The events stand at the contexts, one by one.
abbrev pub StandAt : (ℕ → Option Event) → List ℕ → List Event → Type 0
StandAt events [] [] = Unit {0}
StandAt events (n ∷ ns) (e ∷ es) = (events n ≡ some e) × StandAt events ns es
StandAt events _ _ = ⊥

module _ (events : ℕ → Option Event) where
  pub StandAt-get :
      (ns : List ℕ) (es : List Event) (i n : ℕ)
      → StandAt events ns es
      → get_elem? ns i ≡ some n
      → (e : Event) × (get_elem? es i ≡ some e) × (events n ≡ some e)
  StandAt-get [] es i n all h = cc
  StandAt-get (m ∷ ns) [] i n all h = absurd all
  StandAt-get (m ∷ ns) (e ∷ es) zero n (own, all) h = (e, refl, ap events (sym (some_inj h)) ∙ own)
  StandAt-get (m ∷ ns) (e ∷ es) (suc i) n (own, all) h = StandAt-get ns es i n all h

  pub StandAt-remove :
      (ns : List ℕ) (es : List Event) (i : ℕ)
      → StandAt events ns es
      → StandAt events (remove ns i) (remove es i)
  StandAt-remove [] [] i all = tt
  StandAt-remove [] (e ∷ es) i all = absurd all
  StandAt-remove (m ∷ ns) [] i all = absurd all
  StandAt-remove (m ∷ ns) (e ∷ es) zero (own, all) = all
  StandAt-remove (m ∷ ns) (e ∷ es) (suc i) (own, all) = (own, StandAt-remove ns es i all)

  pub StandAt-append :
      (ns : List ℕ) (es : List Event) (n : ℕ) (e : Event)
      → StandAt events ns es
      → events n ≡ some e
      → StandAt events (ns ++ n ∷ []) (es ++ e ∷ [])
  StandAt-append [] [] n e all h = (h, tt)
  StandAt-append [] (x ∷ es) n e all h = absurd all
  StandAt-append (m ∷ ns) [] n e all h = absurd all
  StandAt-append (m ∷ ns) (x ∷ es) n e (own, all) h = (own, StandAt-append ns es n e all h)

-- A new event leaves the others where they are.
pub StandAt-new :
    (events : ℕ → Option Event) (at : ℕ) (ev : Event)
    → events at ≡ none
    → (ns : List ℕ) (es : List Event) → StandAt events ns es
    → StandAt (λ p. if p == at then some ev else events p) ns es
StandAt-new events at ev new [] [] all = tt
StandAt-new events at ev new [] (e ∷ es) all = absurd all
StandAt-new events at ev new (n ∷ ns) [] all = absurd all
StandAt-new events at ev new (n ∷ ns) (e ∷ es) (own, all) =
    (here, StandAt-new events at ev new ns es all)
  where
    here : (if n == at then some ev else events n) ≡ some e
    here = elim (Bool-cases (n == at)) [
      | inl same ↦ let gone = ap events ((==_iff n at).0 same) ∙ new in cc
      | inr other ↦ rw other own
    ]
