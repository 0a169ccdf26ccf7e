-- ===== src/Client/Connect.antt =====
-- The test client's connection: `main`, `tcp_connect_server` and `event_cb` of src/client/client.cc.
use shared_bike.Base.{
  ◌/◌, ◌+◌, ◌*◌, ℕ, ◌%◌, ◌≡◌, refl, Bool, true, false, Option, Option-cases, none, some, inl, inr,
  List, [], ◌∷◌, ◌==◌, if◌then◌else◌, Bytes, arith,
}
use shared_bike.Startup.{minus}

-- The open sockets of the process, and `errno`.
pub record Sockets : Type 0 where
  pub open_fds : List ℕ
  pub errno : ℕ

-- What the calls return. `socket` gives a number that is not open, or -1 as `none`; a call that fails
-- leaves its `errno`, and `close` may leave any.
pub record SocketAnswers : Type 0 where
  pub inet_aton : Bytes → Option ℕ
  pub socket : Option ℕ
  pub socket_errno : ℕ
  -- on the socket, the address and the port in network order
  pub connect_errno : ℕ → ℕ → ℕ → Option ℕ
  pub close_errno : ℕ

abbrev pub einval : ℕ
einval = 22

-- `htons` of the 16 bits of an int.
abbrev pub htons : ℕ → ℕ
htons port = port % 256 * 256 + port / 256 % 256

-- `close(fd)`
abbrev pub close_fd : ℕ → List ℕ → List ℕ
close_fd fd [] = []
close_fd fd (x ∷ xs) = if x == fd then xs else x ∷ close_fd fd xs

unfoldable pub tcp_connect_server : SocketAnswers → Bytes → ℕ → Sockets → Option ℕ × Sockets
tcp_connect_server a server_ip port s = elim (a.inet_aton server_ip) [
  | none ↦ (none, record s { errno = einval })
  | some addr ↦ elim (a.socket) [
    | none ↦ (none, record s { errno = a.socket_errno })
    | some fd ↦ elim (a.connect_errno fd addr (htons port)) [
      | none ↦ (some fd, record s { open_fds = fd ∷ s.open_fds })
      | some save_errno ↦
          let failed : Sockets = record {
            open_fds = close_fd fd (fd ∷ s.open_fds);
            errno = a.close_errno;
          } in
          (none, record failed { errno = save_errno })
    ]
  ]
]

-- Where `main` goes: it returns an int, or runs the event loop on its connection.
pub data ClientMain : Type 0 where
  returned : ℕ → ClientMain
  dispatching : (sockfd : ℕ) → ClientMain

unfoldable pub client_main :
    SocketAnswers → (Bytes → ℕ) → List Bytes → Sockets → ClientMain × Sockets
client_main a atoi (_ ∷ ip ∷ port ∷ _) s =
    let (fd, s') = tcp_connect_server a ip (atoi port) s in
    elim fd [ none ↦ (returned (minus 1), s') | some sockfd ↦ (dispatching sockfd, s') ]
client_main a atoi _ s = (returned (minus 1), s)

-- What the client still has to wait for: the terminal's event and the connection's bufferevent.
pub record Watched : Type 0 where
  pub ev_cmd : Bool
  pub bev : Bool

-- `event_cb`, whatever the event: both are freed.
unfoldable pub event_cb : Watched → Watched
event_cb w = record { ev_cmd = false; bev = false }

-- The errno of the call that failed, or `none`.
abbrev pub failure : SocketAnswers → Bytes → ℕ → Option ℕ
failure a server_ip port = elim (a.inet_aton server_ip) [
  | none ↦ some einval
  | some addr ↦ elim (a.socket) [
    | none ↦ some a.socket_errno
    | some fd ↦ a.connect_errno fd addr (htons port)
  ]
]

-- What a connection attempt comes to.
abbrev pub Attempted : Option ℕ → SocketAnswers → Sockets → Option ℕ × Sockets → Type 0
Attempted (some e) a s (fd, s') = (fd ≡ none) × (s'.open_fds ≡ s.open_fds) × (s'.errno ≡ e)
Attempted none a s (fd, s') =
    (n : ℕ) × (a.socket ≡ some n)
    × (fd ≡ some n)
    × (s'.open_fds ≡ n ∷ s.open_fds)
    × (s'.errno ≡ s.errno)

-- `tcp_connect_server` leaves no socket open behind a failure, and `errno` is that of the call that
-- failed, whatever closing the socket does to it; where no call fails it returns the new socket,
-- which is then open.
pub tcp_connect_server-closes :
    (a : SocketAnswers) (server_ip : Bytes) (port : ℕ) (s : Sockets)
    → Attempted (failure a server_ip port) a s (tcp_connect_server a server_ip port s)
unfolding tcp_connect_server
tcp_connect_server-closes a server_ip port s = elim (Option-cases (a.inet_aton server_ip)) [
  | inl bad ↦ rw (failure, bad, tcp_connect_server) (refl, refl, refl)
  | inr (addr, good) ↦ elim (Option-cases (a.socket)) [
    | inl no_socket ↦ rw (failure, good, tcp_connect_server, no_socket) (refl, refl, refl)
    | inr (fd, opened) ↦ elim (Option-cases (a.connect_errno fd addr (htons port))) [
      | inl connected ↦
          rw (failure, good, tcp_connect_server, opened, connected) (fd, refl, refl, refl, refl)
      | inr (e, refused) ↦
          let own : (fd == fd) ≡ true = ground arith in
          rw (failure, good, tcp_connect_server, opened, refused, own) (refl, refl, refl)
    ]
  ]
]
