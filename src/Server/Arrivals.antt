-- ===== src/Server/Arrivals.antt =====
-- What a run of src/NetworkInterface.cc's `handle_request` does to the server's invariant.
use shared_bike.Base.{
  ℕ, ◌+◌, ◌≡◌, refl, sym, ap, ◌∙◌, subst, Bool, true, false, some, some_inj, Option, none, List, [],
  ◌∷◌, ◌++◌, ◌==◌, ==_iff, arith, Bytes,
}
use shared_bike.Protobuf.{Protobuf}
use shared_bike.Event.{Event}
use shared_bike.Network.{Connection, Callback, closed, opened}
use shared_bike.Network.Request.Chunks.{receive}
use shared_bike.Network.Request.Hostile.{IsSound, SafeCallback}
use shared_bike.Server.{Server, put, after_request}
use shared_bike.Server.Count.{
  count_for, count_for-append, one_for-own, one_for-other, Each, Each-append,
}
use shared_bike.Server.Invariant.{status_awaits, awaiting, HasSession, ServerInv, put-cases}

module _ {S : Type 0} (pb : Protobuf) (s : Server S) (inv : ServerInv pb s) where
  -- Only the session at `at` and its events change.
  pub put-Inv :
      (at : ℕ) (o : Option Connection) (out lost : List Event) (sn : ℕ)
      → ((c : Connection) → o ≡ some c → IsSound c.session)
      → ((b : ℕ)
          → (b == at) ≡ false
          → count_for b out + count_for b lost ≡ count_for b s.outstanding + count_for b s.lost)
      → count_for at out + count_for at s.service.response_events + count_for at lost ≡ awaiting o
      → Each HasSession out
      → ServerInv pb (record {
        sessions = put at o s.sessions;
        outstanding = out;
        lost = lost;
        service = record (s.service) { sn = sn };
      })
  put-Inv at o out lost sn sound others own each = record {
    sound = λ b c.
        put-cases at b o s.sessions (λ p. p ≡ some c → IsSound c.session) (λ h. sound c)
          (λ h. inv.sound b c);
    tally = λ b.
        put-cases at b o s.sessions
          (λ p.
            count_for b out + count_for b s.service.response_events + count_for b lost ≡ awaiting p)
          (λ h.
            subst
              (λ n.
                count_for n out + count_for n s.service.response_events + count_for n lost
                ≡ awaiting o)
              (sym ((==_iff b at).0 h)) own)
          (λ h. omega (arith, others b h, inv.tally b));
    addressed = each;
    replies = inv.replies;
    open_ = inv.open_;
  }

  tally_at :
      (at : ℕ) (c : Connection)
      → s.sessions at ≡ some c
      → count_for at s.outstanding + count_for at s.service.response_events + count_for at s.lost
        ≡ status_awaits c.session.session_stat
  tally_at at c found = inv.tally at ∙ ap awaiting found

  -- After a run of `handle_request` that is safe.
  pub request-Inv :
      (at : ℕ) (accepted : Bool) (c : Connection) (piece : Bytes) (k : Callback) (ev : Option Event)
      (sn : ℕ)
      → s.sessions at ≡ some c
      → SafeCallback at (receive c piece) k ev
      → ServerInv pb (after_request at accepted (record { callback = k; enqueued = ev; sn = sn }) s)
  request-Inv at accepted c piece closed none sn found stat =
      put-Inv at none s.outstanding s.lost sn (λ d e. cc) (λ b h. refl)
        (tally_at at c found ∙ ap status_awaits stat) inv.addressed
  request-Inv at accepted c piece closed (some ev) sn found bad = absurd bad
  request-Inv at accepted c piece (opened d) none sn found (sound, stat, _) =
      put-Inv at (some d) s.outstanding s.lost sn
        (λ e h. subst (λ (x : Connection). IsSound x.session) (some_inj h) sound) (λ b h. refl)
        (tally_at at c found ∙ ap status_awaits (sym stat)) inv.addressed
  request-Inv at true c piece (opened d) (some ev) sn found (sound, before, after, _, to) =
      put-Inv at (some d) (s.outstanding ++ ev ∷ []) s.lost sn
        (λ e h. subst (λ (x : Connection). IsSound x.session) (some_inj h) sound)
        (λ b h.
          omega (arith, count_for-append b s.outstanding (ev ∷ []), one_for-other b at ev to h))
        (omega (
          arith,
          count_for-append at s.outstanding (ev ∷ []),
          one_for-own at ev to,
          tally_at at c found,
          ap status_awaits before,
          ap status_awaits after,
        ))
        (Each-append HasSession s.outstanding ev inv.addressed (at, to))
  request-Inv at false c piece (opened d) (some ev) sn found (sound, before, after, _, to) =
      put-Inv at (some d) s.outstanding (s.lost ++ ev ∷ []) sn
        (λ e h. subst (λ (x : Connection). IsSound x.session) (some_inj h) sound)
        (λ b h. omega (arith, count_for-append b s.lost (ev ∷ []), one_for-other b at ev to h))
        (omega (
          arith,
          count_for-append at s.lost (ev ∷ []),
          one_for-own at ev to,
          tally_at at c found,
          ap status_awaits before,
          ap status_awaits after,
        ))
        inv.addressed
