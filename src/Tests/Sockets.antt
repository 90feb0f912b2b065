-- ===== src/Tests/Sockets.antt =====
-- Runs of the sockets and connections of Net/src.
use osborne_x.Base.{
  ℕ, ◌+◌, ◌≡◌, refl, true, false, List, [], ◌∷◌, none, some, arith, map, if◌then◌else◌,
}
use osborne_x.Orderbook.Types.{sell}
use osborne_x.Net.Sockets.{
  Arena, Operation, make, moves, destroys, perform_all, perform, make_handle, move_handle,
  destroy_handle, reset, new_arena,
}
use osborne_x.Net.Ownership.{owned, times_closed, times_taken, perform_all-balances}
use osborne_x.Net.Wire.{encode_order}
use osborne_x.Net.Connection.{send, sent, unstamped}
use osborne_x.Net.Receiving.{Poll, idle, arrives, stream_of, connection_polled}
use osborne_x.Net.Arriving.{connection_polled-sent}
use osborne_x.Net.Client.{client_send, Delivers, client_send-Delivers}
use osborne_x.Net.Listener.{
  Listener, make_listener, join_all, reap_finished_connections, accept_client, remove_finished,
  finish_in,
}
use osborne_x.Net.Reaping.{is_out_of_order, live_ones, finished_ones}
use osborne_x.Net.Serving.{Change, accepts, finishes, serve, serve_all, serve_all-reaps}
use osborne_x.Tests.Shards.{message}
use osborne_x.Tests.Frames.{header, header-IsPacked, order, order-IsPacked}

-- A handle is made, moved, and both objects destroyed.
abbrev life : List Operation
life = make (some 7) ∷ moves 0 ∷ destroys 0 ∷ destroys 1 ∷ []

abbrev after_life : Arena
after_life = record { handles = none ∷ none ∷ []; closed = 7 ∷ [] }

lived : perform_all life new_arena ≡ some after_life
unfolding perform_all perform make_handle move_handle destroy_handle reset
lived = refl

perform_all-balances_example :
    owned 7 after_life.handles + times_closed 7 after_life.closed ≡ times_taken 7 life
perform_all-balances_example = perform_all-balances life after_life 7 lived

-- The first byte of the frame comes alone.
abbrev polls : List ℕ → List Poll
polls [] = []
polls (b ∷ bytes) = idle ∷ arrives (b ∷ []) ∷ idle ∷ arrives bytes ∷ []

polled :
    stream_of (polls (sent header order (message 1 sell ∷ [])))
    ≡ sent header order (message 1 sell ∷ [])
unfolding stream_of sent send encode_order
polled = refl

connection_polled-sent_example :
    connection_polled header order 2 (polls (sent header order (message 1 sell ∷ [])))
    ≡ map (λ m. some (unstamped m)) (message 1 sell ∷ [])
connection_polled-sent_example =
    connection_polled-sent header order (message 1 sell ∷ []) 2
      (polls (sent header order (message 1 sell ∷ []))) header-IsPacked order-IsPacked (omega arith)
      (omega arith) polled

-- The system takes three bytes, and then fails.
client_send-Delivers_example :
    Delivers
      (send header order (message 1 sell))
      (client_send header order (some 5) (3 ∷ 0 ∷ []) (message 1 sell))
client_send-Delivers_example = client_send-Delivers header order 5 (3 ∷ 0 ∷ []) (message 1 sell)

-- The first connection has ended, and the second one is still served.
abbrev busy_listener : Listener
busy_listener = record (make_listener 9001) {
  connections =
      record { thread = some 1; finished = true }
      ∷ record { thread = some 2; finished = false }
      ∷ [];
}

abbrev clients : List Change
clients = accepts 1 ∷ accepts 2 ∷ finishes 1 ∷ []

served : serve_all clients (make_listener 9001) ≡ some busy_listener
unfolding serve_all serve accept_client reap_finished_connections remove_finished join_all finish_in
    make_listener
served = refl

serve_all-reaps_example : reap_finished_connections busy_listener ≡ (
    if is_out_of_order busy_listener.connections
    then none
    else some (record busy_listener {
      connections = live_ones busy_listener.connections;
      joined = join_all (finished_ones busy_listener.connections) busy_listener.joined;
    }))
serve_all-reaps_example = serve_all-reaps 9001 clients busy_listener served
