-- ===== src/Net/Publishing.antt =====
-- The constructor and destructor of `MarketDataPublisherUdp` of Net/src/market_data_multicast.cpp.
use osborne_x.Base.{
  ℕ, ◌≡◌, Bool, false, List, [], ◌++◌, Option, none, some, ◌&&◌, if◌then◌else◌, arith,
}
use osborne_x.Net.Sockets.{SocketHandle, close_handle}
use osborne_x.Net.Client.{owns}

-- What the system answers: a socket, whether the group is an address, and whether the socket connects.
pub record PublisherAnswers : Type 0 where
  pub socket : Option ℕ
  pub is_address : Bool
  pub connects : Bool

-- The socket of the publisher, and those that were closed; no socket where the constructor throws, which
-- destroys the handle that it has set.
unfoldable pub make_publisher : PublisherAnswers → SocketHandle × List ℕ
make_publisher a = elim a.socket [
  | none ↦ (none, [])
  | some h ↦
      if a.is_address
      then (if a.connects then (some h, []) else (none, close_handle (some h) []))
      else (none, close_handle (some h) [])
]

abbrev pub is_published : PublisherAnswers → Bool
is_published a = elim a.socket [ none ↦ false | some h ↦ a.is_address && a.connects ]

-- The socket that was opened is owned or closed.
pub make_publisher-balances :
    (a : PublisherAnswers) → owns a.socket ≡ (make_publisher a).1 ++ owns (make_publisher a).0
unfolding make_publisher
make_publisher-balances a = ground arith
