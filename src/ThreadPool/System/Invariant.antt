-- ===== src/ThreadPool/System/Invariant.antt =====
-- What holds of the pool and its threads after any actions in any order.
use shared_bike.Base.{
  ℕ, zero, suc, ◌+◌, ◌≤◌, ◌≡◌, refl, sym, ◌∙◌, ap, ◌≢◌, ◌⊎◌, inl, inr, false, none, some, List, [],
  ◌∷◌, arith, length, length-set, get_elem?, set, some_inj,
}
use shared_bike.Base.Int.{pos, pos_part, neg_part}
use shared_bike.ThreadPool.{
  Ptr, default_queue_num, default_threads_num, Pool, Pc, looping, asleep, running, stopped,
  stopped_asleep, Cells,
}
use shared_bike.ThreadPool.Queue.{has, Chain, IsQueue}
use shared_bike.ThreadPool.System.{System}
use shared_bike.ThreadPool.System.Turn.{owes, Turn, HoldsTask}

abbrev pub total_owed : List Pc → ℕ
total_owed [] = 0
total_owed (pc ∷ pcs) = owes pc + total_owed pcs

total_owed-set :
    (pcs : List Pc) (i : ℕ) (pc pc' : Pc)
    → get_elem? pcs i ≡ some pc
    → total_owed (set pcs i pc') + owes pc ≡ total_owed pcs + owes pc'
total_owed-set [] i pc pc' h = cc
total_owed-set (x ∷ pcs) zero pc pc' h = let e : x ≡ pc = some_inj h in rw e (omega arith)
total_owed-set (x ∷ pcs) (suc i) pc pc' h = omega (arith, total_owed-set pcs i pc pc' h)

pub total_owed-le : (pcs : List Pc) → total_owed pcs ≤ length pcs
total_owed-le [] = omega arith
total_owed-le (looping ∷ pcs) = omega (arith, total_owed-le pcs)
total_owed-le (asleep ∷ pcs) = omega (arith, total_owed-le pcs)
total_owed-le (running t ∷ pcs) = omega (arith, total_owed-le pcs)
total_owed-le (stopped ∷ pcs) = omega (arith, total_owed-le pcs)
total_owed-le (stopped_asleep ∷ pcs) = omega (arith, total_owed-le pcs)

-- An entry of an updated list is the new one or an old one.
pub get-set_cases :
    (pcs : List Pc) (i j : ℕ) (pc' pc : Pc)
    → get_elem? (set pcs i pc') j ≡ some pc
    → ((j ≡ i) × (pc ≡ pc')) ⊎ ((j ≢ i) × (get_elem? pcs j ≡ some pc))
get-set_cases [] i j pc' pc h = cc
get-set_cases (x ∷ pcs) zero zero pc' pc h = inl (refl, sym (some_inj h))
get-set_cases (x ∷ pcs) zero (suc j) pc' pc h = inr (omega arith, h)
get-set_cases (x ∷ pcs) (suc i) zero pc' pc h = inr (omega arith, h)
get-set_cases (x ∷ pcs) (suc i) (suc j) pc' pc h = ground (arith, get-set_cases pcs i j pc' pc h)

-- The pool's queue is `xs`. The count of waiting tasks is the length of the queue, less the threads
-- that have counted one off and have none yet, and is within the limit. A running thread has a task
-- of its own, allocated and no longer queued. Limit and threads are those of the defaults.
pub record Inv (s : System) (xs : List Ptr) : Type 0 where
  pub queue : IsQueue s.pool xs
  pub counted : pos_part s.pool.waiting + total_owed s.pcs ≡ length xs + neg_part s.pool.waiting
  pub limited :
      pos_part s.pool.waiting + neg_part s.pool.max_queue
      ≤ pos_part s.pool.max_queue + neg_part s.pool.waiting
  pub capacity : s.pool.max_queue ≡ pos default_queue_num
  pub crew : length s.pcs ≡ default_threads_num
  pub holding : (i : ℕ) (pc : Pc) → get_elem? s.pcs i ≡ some pc → HoldsTask s.pool xs pc
  pub apart :
      (i j : ℕ) (t : Ptr)
      → get_elem? s.pcs i ≡ some (running t)
      → get_elem? s.pcs j ≡ some (running t)
      → i ≡ j

-- The tasks of a queue are allocated.
pub allocated :
    (c : Cells) (p : Ptr) (xs : List Ptr) (a : Ptr) → Chain c p xs → c a ≡ none → has a xs ≡ false
allocated c p [] a h e = refl
allocated c p (x ∷ xs) a (_, _, _, (t, holds, rest)) e =
    ground (arith, allocated c t.next xs a rest)

pub HoldsTask-frame :
    (p r : Pool) (xs ys : List Ptr) (pc : Pc)
    → HoldsTask p xs pc
    → ((t : Ptr) → pc ≡ running t → has t xs ≡ false → (has t ys ≡ false) × (r.cells t ≡ p.cells t))
    → HoldsTask r ys pc
HoldsTask-frame p r xs ys looping h keep = tt
HoldsTask-frame p r xs ys asleep h keep = tt
HoldsTask-frame p r xs ys (running t) (ne, out, (n, holds)) keep =
    let (out', same) = keep t refl out in (ne, out', (n, same ∙ holds))
HoldsTask-frame p r xs ys stopped h keep = tt
HoldsTask-frame p r xs ys stopped_asleep h keep = tt

module _ {s : System} {xs : List Ptr} (inv : Inv s xs) where
  -- The step of thread `i` from `pc` to `pc'`, which leaves the pool `r` with the queue `ys`.
  pub Turn-Inv :
      (i : ℕ) (pc pc' : Pc) (r : Pool) (ys : List Ptr)
      → get_elem? s.pcs i ≡ some pc
      → Turn s.pool r xs ys pc pc'
      → Inv (record { pool = r; pcs = set s.pcs i pc' }) ys
  Turn-Inv i pc pc' r ys at turn = record {
    queue = turn.queue;
    counted = omega (arith, total_owed-set s.pcs i pc pc' at, inv.counted, turn.balance);
    limited = rw turn.max_queue (omega (arith, inv.limited, turn.lower));
    capacity = turn.max_queue ∙ inv.capacity;
    crew = length-set s.pcs i pc' ∙ inv.crew;
    holding = holding;
    apart = apart;
  }
    where
      -- A task that another thread runs is neither queued again nor freed by this one.
      others :
          (j : ℕ) (t : Ptr)
          → j ≢ i
          → get_elem? s.pcs j ≡ some (running t)
          → has t xs ≡ false
          → (has t ys ≡ false) × (r.cells t ≡ s.pool.cells t)
      others j t ne here out =
          (turn.shrinks t out, turn.keeps t (λ e. ne (inv.apart j i t here (at ∙ ap some e))))

      holding : (j : ℕ) (q : Pc) → get_elem? (set s.pcs i pc') j ≡ some q → HoldsTask r ys q
      holding j q h = elim (get-set_cases s.pcs i j pc' q h) [
        | inl (_, e) ↦ rw e turn.held
        | inr (ne, old) ↦
            HoldsTask-frame s.pool r xs ys q (inv.holding j q old)
              λ t e out. others j t ne (old ∙ ap some e) out
      ]

      -- The task that this thread took was queued, so no other thread runs it.
      taken : (j : ℕ) (t : Ptr) → pc' ≡ running t → get_elem? s.pcs j ≡ some (running t) → ⊥
      taken j t e here =
          let (_, out, _) = inv.holding j (running t) here in
          let e' = turn.starts t e in absurd (ground (arith, ap (has t) e'))

      apart :
          (a b : ℕ) (t : Ptr)
          → get_elem? (set s.pcs i pc') a ≡ some (running t)
          → get_elem? (set s.pcs i pc') b ≡ some (running t)
          → a ≡ b
      apart a b t ha hb = elim (get-set_cases s.pcs i a pc' (running t) ha) [
        | inl (ea, pa) ↦ elim (get-set_cases s.pcs i b pc' (running t) hb) [
          | inl (eb, _) ↦ ea ∙ sym eb
          | inr (_, old) ↦ absurd (taken b t (sym pa) old)
        ]
        | inr (_, old_a) ↦ elim (get-set_cases s.pcs i b pc' (running t) hb) [
          | inl (_, pb) ↦ absurd (taken a t (sym pb) old_a)
          | inr (_, old_b) ↦ inv.apart a b t old_a old_b
        ]
      ]
