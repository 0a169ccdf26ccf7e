-- ===== src/Startup/Listener.antt =====
-- The event base and the listener of `NetworkInterface`, src/NetworkInterface.cc, NULL as `none`.
use shared_bike.Base.{ℕ, Bool, true, false, Option, none, some, List, ◌∷◌, [], ◌++◌}

pub record Interface : Type 0 where
  pub base : Option ℕ
  pub listener : Option ℕ

-- The constructor.
unfoldable pub new_interface : Interface
new_interface = record { base = none; listener = none }

-- `start`, on what `event_base_new` and `evconnlistener_new_bind` return.
unfoldable pub start : Option ℕ → Option ℕ → Interface → Bool × Interface
start base none i = (false, record i { base = base; listener = none })
start base (some l) i = (true, record i { base = base; listener = some l })

-- `close`: the addresses that are freed, and the interface after.
abbrev freed : Option ℕ → List ℕ
freed none = []
freed (some p) = p ∷ []

unfoldable pub close : Interface → List ℕ × Interface
close i = (freed i.base ++ freed i.listener, record { base = none; listener = none })

-- The destructor.
unfoldable pub delete_interface : Interface → List ℕ
unfolding close
delete_interface i = (close i).0
