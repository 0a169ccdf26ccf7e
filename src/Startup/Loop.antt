-- ===== src/Startup/Loop.antt =====
-- The loop that `main` of src/main.cc ends in: `NetworkInterface::network_event_dispatch` of
-- src/NetworkInterface.cc over and over, while the threads of the pool take their turns.
use shared_bike.Base.{
  ℕ, ◌≡◌, refl, sym, subst, inl, inr, List, [], ◌∷◌, Outcome, Outcome-cases, ok, fault,
  missing_return, ◌>>=◌,
}
use shared_bike.Protobuf.{Protobuf}
use shared_bike.Dispatch.Process.{Handle}
use shared_bike.ThreadPool.{Cells}
use shared_bike.Dispatch.Subscribers.{EventHandlersMap}
use shared_bike.Network.{Platform}
use shared_bike.Assembled.{Assembled, Move, flushes, move, moves}
use shared_bike.Assembled.Steps.{CanMove}
use shared_bike.Assembled.Safety.{assembled, Reach, assembled-no_fault}

module _ {S : Type 0} (pf : Platform) (pb : Protobuf) (handle : Handle S) where
  -- `network_event_dispatch`, where `ms` are the callbacks that `event_base_loop` makes, and the
  -- turns of the threads from the round before on.
  unfoldable pub round : List Move → Assembled S → Outcome (Assembled S)
  round ms w = do v ← moves pf pb handle ms w; move pf pb handle flushes v

  -- So many rounds of `while (1 == 1)`.
  unfoldable pub main_loop : List (List Move) → Assembled S → Outcome (Assembled S)
  main_loop [] w = ok w
  main_loop (ms ∷ rest) w = do v ← round ms w; main_loop rest v

  -- Each move can be made where its turn comes.
  abbrev pub CanMoves : List Move → Assembled S → Type 0
  CanMoves [] w = Unit {0}
  CanMoves (m ∷ ms) w =
      CanMove pf pb handle m w × ((v : Assembled S) → move pf pb handle m w ≡ ok v → CanMoves ms v)

  abbrev pub CanLoop : List (List Move) → Assembled S → Type 0
  CanLoop [] w = Unit {0}
  CanLoop (ms ∷ rest) w = CanMoves ms w × ((v : Assembled S) → round ms w ≡ ok v → CanLoop rest v)

  -- A run that was begun at `start` goes on to a state that is reached, or to the missing return.
  abbrev pub GoesOn : Assembled S → Outcome (Assembled S) → Type 0
  GoesOn start (ok v) = Reach pf pb handle start v
  GoesOn start (fault x) = x ≡ missing_return

  module _ (c : Cells) (ids : ℕ) (m : EventHandlersMap) (handlers : S) (sn : ℕ) where
    abbrev start : Assembled S
    start = assembled c ids m handlers sn

    move-GoesOn :
        (act : Move) {w : Assembled S}
        → Reach pf pb handle start w
        → CanMove pf pb handle act w
        → GoesOn start (move pf pb handle act w)
    move-GoesOn act r can = elim (assembled-no_fault pf pb handle r act can) [
      | inl (v, e) ↦ subst (GoesOn start) (sym e) (Reach.next act r can e)
      | inr bad ↦ subst (GoesOn start) (sym bad) refl
    ]

    moves-GoesOn :
        (ms : List Move) {w : Assembled S}
        → Reach pf pb handle start w
        → CanMoves ms w
        → GoesOn start (moves pf pb handle ms w)
    unfolding moves
    moves-GoesOn [] r can = r
    moves-GoesOn (act ∷ ms) {w} r (can, rest) = elim (Outcome-cases (move pf pb handle act w)) [
      | inl (v, e) ↦
          rw (e, moves)
            (moves-GoesOn ms (subst (GoesOn start) e (move-GoesOn act r can)) (rest v e))
      | inr (x, e) ↦ rw (e, moves) (subst (GoesOn start) e (move-GoesOn act r can))
    ]

    round-GoesOn :
        (ms : List Move) {w : Assembled S}
        → Reach pf pb handle start w
        → CanMoves ms w
        → GoesOn start (round ms w)
    unfolding round
    round-GoesOn ms {w} r can =
        let all = moves-GoesOn ms r can in
        elim (Outcome-cases (moves pf pb handle ms w)) [
          | inl (v, e) ↦ rw (e, round) (move-GoesOn flushes (subst (GoesOn start) e all) tt)
          | inr (x, e) ↦ rw (e, round) (subst (GoesOn start) e all)
        ]

    pub main_loop-GoesOn :
        (rounds : List (List Move)) {w : Assembled S}
        → Reach pf pb handle start w
        → CanLoop rounds w
        → GoesOn start (main_loop rounds w)
    unfolding main_loop
    main_loop-GoesOn [] r can = r
    main_loop-GoesOn (ms ∷ rest) {w} r (can, more) =
        let one = round-GoesOn ms r can in
        elim (Outcome-cases (round ms w)) [
          | inl (v, e) ↦
              rw (e, main_loop) (main_loop-GoesOn rest (subst (GoesOn start) e one) (more v e))
          | inr (x, e) ↦ rw (e, main_loop) (subst (GoesOn start) e one)
        ]
