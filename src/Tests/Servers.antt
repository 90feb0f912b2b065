-- ===== src/Tests/Servers.antt =====
-- Runs of the server of Server/src/server.cpp.
use osborne_x.Base.{◌≡◌, refl, true, false, List, [], ◌∷◌, ◌++◌, none, some}
use osborne_x.Orderbook.Types.{buy, sell}
use osborne_x.Queue.MpscQueue.{make_queue, push, pop_blocking, take_front, close}
use osborne_x.Net.Listener.{Answers, make_listener}
use osborne_x.Net
use osborne_x.Server.{
  Server, make_server, Call, starts, stops, receives, pumps, perform, perform_all, start, stop,
  finish_start, start_pump, stop_pump, stop_consumers, start_simulation, stop_simulation,
  start_broadcaster, stop_broadcaster, receive_order, pump_once, run_pump,
}
use osborne_x.Server.Lifecycle.{IsCoherent, make_server-IsCoherent}
use osborne_x.Server.Coherence.{perform_all-IsCoherent}
use osborne_x.Server.Calls.{taken_in, adds_all, perform_all-conserves}
use osborne_x.Server.Shutdown.{stop-drops}
use osborne_x.Tests.Shards.{message}

abbrev new_server : Server
new_server = make_server 2 4 9001

abbrev works : Answers
works = record { socket = some 8; binds = true; listens = true; name = some 9001; thread = 3 }

abbrev port_taken : Answers
port_taken = record { socket = some 7; binds = false; listens = false; name = none; thread = 3 }

-- The server that ran, where the calls return.
abbrev after : List Call → Server → Server
after cs s = elim (perform_all cs s) [ none ↦ s | some s' ↦ s' ]

-- A start on a port that is taken.
failed_start :
    perform_all (starts port_taken ∷ []) new_server
    ≡ some (after (starts port_taken ∷ []) new_server)
unfolding perform_all perform start start_pump finish_start stop_consumers stop_pump run_pump
    pop_blocking take_front close start_simulation stop_simulation start_broadcaster
    stop_broadcaster Net.Listener.start Net.Listener.start_on Net.Listener.reset_socket make_server
    make_listener make_queue
failed_start = refl

perform_all-IsCoherent_example : IsCoherent (after (starts port_taken ∷ []) new_server)
perform_all-IsCoherent_example =
    perform_all-IsCoherent (starts port_taken ∷ []) new_server
      (after (starts port_taken ∷ []) new_server) (make_server-IsCoherent 2 4 9001) failed_start

abbrev working : List Call
working = starts works ∷ receives (message 1 sell) ∷ pumps ∷ receives (message 2 buy) ∷ []

worked : perform_all working new_server ≡ some (after working new_server)
unfolding perform_all perform start start_pump finish_start stop_consumers stop_pump run_pump
    pop_blocking take_front close start_simulation stop_simulation start_broadcaster
    stop_broadcaster Net.Listener.start Net.Listener.start_on Net.Listener.reset_socket make_server
    make_listener make_queue receive_order push pump_once
worked = refl

perform_all-conserves_example :
    taken_in (after working new_server) ≡ taken_in new_server ++ adds_all working new_server
perform_all-conserves_example =
    perform_all-conserves working new_server (after working new_server) worked

abbrev running : Server
running = after working new_server

working-running : running.running ≡ true
unfolding perform_all perform start start_pump finish_start pop_blocking take_front start_simulation
    start_broadcaster Net.Listener.start Net.Listener.start_on Net.Listener.reset_socket make_server
    make_listener make_queue receive_order push pump_once
working-running = refl

abbrev halted : Server
halted = after (stops ∷ []) running

stopped_running : stop running ≡ some halted
unfolding perform_all perform start stop start_pump finish_start stop_consumers stop_pump run_pump
    pop_blocking take_front close start_simulation stop_simulation start_broadcaster
    stop_broadcaster Net.Listener.start Net.Listener.start_on Net.Listener.reset_socket
    Net.Listener.stop Net.Listener.join_all make_server make_listener make_queue receive_order push
    pump_once
stopped_running = refl

-- A restart, and an order to the new server.
abbrev restarting : List Call
restarting = starts works ∷ receives (message 3 buy) ∷ pumps ∷ []

restarted : perform_all restarting halted ≡ some (after restarting halted)
unfolding perform_all perform start stop start_pump finish_start stop_consumers stop_pump run_pump
    pop_blocking take_front close start_simulation stop_simulation start_broadcaster
    stop_broadcaster Net.Listener.start Net.Listener.start_on Net.Listener.reset_socket
    Net.Listener.stop Net.Listener.join_all make_server make_listener make_queue receive_order push
    pump_once
restarted = refl

stop-drops_example :
    (halted.pump.submitted ≡ taken_in running)
    × ((after restarting halted).pump.submitted ≡ taken_in running)
stop-drops_example =
    stop-drops restarting running halted (after restarting halted)
      (perform_all-IsCoherent working new_server running (make_server-IsCoherent 2 4 9001) worked)
      working-running stopped_running restarted
