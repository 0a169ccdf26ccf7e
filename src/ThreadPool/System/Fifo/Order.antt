-- ===== src/ThreadPool/System/Fifo/Order.antt =====
-- Runs of the pool of src/threadpool/: the order in which its tasks are taken.
use shared_bike.Base.{
  some_inj, ℕ, ◌≡◌, refl, sym, ap, ◌∙◌, subst, some, List, [], ◌∷◌, ◌++◌, append-nil, append_assoc,
  arith, ok,
}
use shared_bike.ThreadPool.{Ptr, Cells}
use shared_bike.ThreadPool.Queue.{IsQueue}
use shared_bike.ThreadPool.System.{System, Action, step}
use shared_bike.ThreadPool.System.Invariant.{Inv}
use shared_bike.ThreadPool.System.Steps.{Enabled}
use shared_bike.ThreadPool.System.Safety.{initial_system, initial-Inv}
use shared_bike.ThreadPool.System.Fifo.{Seen, unseen, accepted, taken, fifo, contexts, seen}
use shared_bike.ThreadPool.System.Fifo.Steps.{step-Follows}

-- What was seen of a run, in order.
pub data Trace (start : System) : List Seen → System → Type 0 where
  here : Trace start [] start
  next :
      {h h' : List Seen} {s t : System} (act : Action)
      → Trace start h s
      → Enabled act s
      → step act s ≡ ok t
      → h' ≡ h ++ seen act s ∷ []
      → Trace start h' t

-- The contexts that were accepted, and those that were taken.
abbrev pub accepted_in : List Seen → List ℕ
accepted_in [] = []
accepted_in (unseen ∷ h) = accepted_in h
accepted_in (accepted n ∷ h) = n ∷ accepted_in h
accepted_in (taken n ∷ h) = accepted_in h

abbrev pub taken_in : List Seen → List ℕ
taken_in [] = []
taken_in (unseen ∷ h) = taken_in h
taken_in (accepted n ∷ h) = taken_in h
taken_in (taken n ∷ h) = n ∷ taken_in h

accepted_in-append : (h k : List Seen) → accepted_in (h ++ k) ≡ accepted_in h ++ accepted_in k
accepted_in-append [] k = refl
accepted_in-append (unseen ∷ h) k = accepted_in-append h k
accepted_in-append (accepted n ∷ h) k = ap (◌∷◌ n) (accepted_in-append h k)
accepted_in-append (taken n ∷ h) k = accepted_in-append h k

taken_in-append : (h k : List Seen) → taken_in (h ++ k) ≡ taken_in h ++ taken_in k
taken_in-append [] k = refl
taken_in-append (unseen ∷ h) k = taken_in-append h k
taken_in-append (accepted n ∷ h) k = taken_in-append h k
taken_in-append (taken n ∷ h) k = ap (◌∷◌ n) (taken_in-append h k)

-- One more step of the specification keeps the account.
fifo_account :
    (l : Seen) (xs ys q q' : List ℕ)
    → xs ≡ ys ++ q
    → fifo l q ≡ some q'
    → xs ++ accepted_in (l ∷ []) ≡ (ys ++ taken_in (l ∷ [])) ++ q'
unfolding fifo
fifo_account unseen xs ys q q' e h =
    append-nil xs
    ∙ (e ∙ (ap (◌++◌ ys) (some_inj h) ∙ ap (λ (zs : List ℕ). zs ++ q') (sym (append-nil ys))))
fifo_account (accepted n) xs ys q q' e h =
    ap (λ (zs : List ℕ). zs ++ n ∷ []) e
    ∙ (append_assoc ys q (n ∷ [])
        ∙ (ap (◌++◌ ys) (some_inj h) ∙ ap (λ (zs : List ℕ). zs ++ q') (sym (append-nil ys))))
fifo_account (taken n) xs ys [] q' e h = cc
fifo_account (taken n) xs ys (x ∷ q) q' e h =
    let own : x ≡ n = ground (arith, h) in
    let rest : q ≡ q' = ground (arith, h) in
    append-nil xs ∙ (e ∙ ((λ k. ys ++ own k ∷ rest k) ∙ sym (append_assoc ys (n ∷ []) q')))

-- The pool's queue is that of the tasks `xs` in every run, and the account holds: what was accepted
-- is what was taken, with what is queued behind.
Trace-account :
    {c : Cells} {ids : ℕ} {h : List Seen} {s : System}
    → Trace (initial_system c ids) h s
    → (xs : List Ptr) × Inv s xs × (accepted_in h ≡ taken_in h ++ contexts s.pool.cells xs)
Trace-account {c} {ids} here = ([], initial-Inv c ids, refl)
Trace-account (next {h} {h'} {s} {t} act r enabled e last) =
    let (xs, inv, account) = Trace-account r in
    let (t', ys, e', inv', spec) = step-Follows act s xs enabled inv in
    let same : t' ≡ t = ground arith in
    let l = seen act s in
    (
      ys,
      subst (λ u. Inv u ys) same inv',
      ap accepted_in last
          ∙ (accepted_in-append h (l ∷ [])
              ∙ (fifo_account l (accepted_in h) (taken_in h) (contexts s.pool.cells xs)
                    (contexts t'.pool.cells ys) account spec
                  ∙ (λ k.
                      (sym (taken_in-append h (l ∷ [])) ∙ ap taken_in (sym last)) k
                      ++ contexts (same k).pool.cells ys))),
    )

-- The pool refines its specification: from every state that it reaches, an enabled action has a
-- step, and what is seen of that step takes the contexts of the queued tasks to those that are
-- queued after it as the first-in-first-out queue does.
pub step-fifo :
    {c : Cells} {ids : ℕ} {h : List Seen} {s : System}
    → Trace (initial_system c ids) h s
    → (act : Action) → Enabled act s
    → (t : System) × (xs ys : List Ptr) × (step act s ≡ ok t)
      × IsQueue s.pool xs
      × IsQueue t.pool ys
      × (fifo (seen act s) (contexts s.pool.cells xs) ≡ some (contexts t.pool.cells ys))
step-fifo {s = s} r act enabled =
    let (xs, inv, _) = Trace-account r in
    let (t, ys, e, inv', spec) = step-Follows act s xs enabled inv in
    (t, xs, ys, e, inv.queue, inv'.queue, spec)

-- In every run the events that the pool accepted are taken each once and in the order in which they
-- were accepted; those that no thread has taken yet are the contexts of the queue, in that order.
pub taken_in_order :
    {c : Cells} {ids : ℕ} {h : List Seen} {s : System}
    → Trace (initial_system c ids) h s
    → (xs : List Ptr) × IsQueue s.pool xs × (accepted_in h ≡ taken_in h ++ contexts s.pool.cells xs)
taken_in_order r = let (xs, inv, account) = Trace-account r in (xs, inv.queue, account)
