-- ===== src/Server/Flushed.antt =====
-- What the responses that go out do to the sessions of src/NetworkInterface.cc.
use shared_bike.Base.{
  ℕ, ◌+◌, ◌≤◌, ◌≡◌, refl, sym, ap, ◌∙◌, subst, Bool, true, false, some, some_inj, Option, none,
  List, [], arith, length,
}
use shared_bike.Protobuf.{Protobuf}
use shared_bike.Event.{Event}
use shared_bike.Session.{ConnectSession}
use shared_bike.Network.{Connection}
use shared_bike.Network.Request.Hostile.{reads_header, IsSound}
use shared_bike.Network.Response.Flush.{IsReset, Answered, After, any_for}
use shared_bike.Server.Count.{count_for, any_for-count, any_for-none}
use shared_bike.Server.Invariant.{status_awaits, awaiting, awaiting_le}

reset-IsSound : (cs cs' : ConnectSession) → IsReset cs cs' → length cs.header ≡ 11 → IsSound cs'
reset-IsSound cs cs' r size = record {
  doing = reads_header [] (record {
    session_stat = r.session_stat;
    req_stat = r.req_stat;
    len = r.read_header_len;
    short = omega arith;
    buffer = record { size_eq = ap length r.header ∙ size; prefix = refl };
  });
  header = ap length r.header ∙ size;
}

After-IsSound : (b : Bool) (cs cs' : ConnectSession) → After b cs cs' → IsSound cs → IsSound cs'
After-IsSound true cs cs' r sound = reset-IsSound cs cs' r sound.header
After-IsSound false cs cs' e sound = subst IsSound (sym e) sound

After-awaiting :
    (b : Bool) (cs cs' : ConnectSession) (own rest : ℕ)
    → After b cs cs'
    → (b ≡ true → 1 ≤ own)
    → (b ≡ false → own ≡ 0)
    → rest + own ≡ status_awaits cs.session_stat
    → rest + own ≤ 1
    → rest ≡ status_awaits cs'.session_stat
After-awaiting true cs cs' own rest r some_own none_own e le =
    omega (arith, some_own refl, ap status_awaits r.session_stat, le)
After-awaiting false cs cs' own rest same some_own none_own e le =
    omega (arith, none_own refl, e)
    ∙ ap (λ (x : ConnectSession). status_awaits x.session_stat) (sym same)

pub sound_after :
    (pb : Protobuf) (evs : List Event) (at : ℕ) (o p : Option Connection)
    → Answered pb evs at o p
    → ((c : Connection) → o ≡ some c → IsSound c.session)
    → (c : Connection) → p ≡ some c
    → IsSound c.session
sound_after pb evs at none p gone sound c h = let clash : none ≡ some c = sym gone ∙ h in cc
sound_after pb evs at (some d) p (d', now, _, _, aft) sound c h =
    subst (λ (x : Connection). IsSound x.session) (some_inj (sym now ∙ h))
      (After-IsSound (any_for at evs) d.session d'.session aft (sound d refl))

pub tally_after :
    (pb : Protobuf) (evs : List Event) (at : ℕ) (o p : Option Connection) (rest : ℕ)
    → Answered pb evs at o p
    → rest + count_for at evs ≡ awaiting o
    → rest ≡ awaiting p
tally_after pb evs at none p rest gone e = omega (arith, e, ap awaiting gone)
tally_after pb evs at (some d) p rest (d', now, _, _, aft) e =
    After-awaiting (any_for at evs) d.session d'.session (count_for at evs) rest aft
      (any_for-count at evs) (any_for-none at evs) e (omega (arith, e, awaiting_le (some d)))
    ∙ ap awaiting (sym now)
