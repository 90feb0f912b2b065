-- ===== src/Lib.antt =====
-- OsborneX: an exchange in C++, with order books split over shards by symbol, a server that takes
-- orders over TCP and sends market data by UDP multicast, and a terminal view of that data.
--
-- An order takes this way: a client frames it (Net), the listener's connection decodes it and pushes
-- it to a queue of many producers (MpscQueue), a pump submits it to the simulation, where the ingress
-- stamps it and the router enqueues it at the shard of its symbol. The shard reads it from its
-- inbound ring buffer and applies it to the symbol's order book; trades and changes of the top of the
-- book go out by two more ring buffers, as datagrams to the views.
--
-- The files, and the code that they model:
--   Base       names from the libraries, lists, association lists; Base/Price is `Price` of
--              Orderbook/inc/Orderbook/domain_types.hpp
--   Orderbook  Orderbook/inc/Orderbook and Orderbook/src/orderbook.cpp. Types has orders and trades,
--              Levels `bids_` and `asks_`, LevelData `levelData_`, Book the class with `CanMatch`,
--              `CanFullyFill` and the cancelling members, Matching `MatchOrders`, Operations
--              `AddOrder`, `ModifyOrder`, `Size` and `GetOrderInfos`. A member named in the source
--              by CamelCase has its name in snake_case here. The other files are proofs: Sorted,
--              Standing, Filing, Index, Indexed, Tally, Tallied and Cancel on what is kept, Without,
--              Released and Cancelling on a cancelled order, Rounds and Exhaust on the loops, Priority, Crossing, Volume, Everywhere, Patient, Admission and
--              Conserving on what is traded, Uncrossed, Killing, FillAndKill and Immediate on
--              fill-and-kill orders, Reach, Buying, Selling, Filling and Trading on how much an order
--              trades, Coverage, PartialFill and FillOrKill on fill-or-kill ones, Tops on the levels that
--              are shown, Sound on all that a call keeps.
--   Queue      Queue/inc/Queue: RingBuffer is ring_buffer.hpp, MpscQueue is mpsc_queue.hpp. Bits,
--              History, Reading, Gating, Monitor, Stream and Delivery are proofs.
--   Messages   Messages/inc/Messages
--   Sharding   Sharding/inc/Sharding and Sharding/src: Shard, Router, and Worker with the thread of a
--              shard; Streams, Draining, Books, Tops, Working, Rounds, Threads
--              and Serving are proofs.
--   Ingress    Receive is Ingress/src/ingress.cpp, Submit is Simulation/src/simulation.cpp;
--              Flow, Interleaving and Holding are proofs on runs of it.
--   Net        Wire and Frames are Net/inc/Net/wire and its sources, Connection is `send` of
--              Net/src/order_entry_client.cpp with `connection_loop` of
--              Net/src/order_entry_listener.cpp on a whole stream, Receiving is that loop over polls,
--              Client and Listener are the rest of the two. Sockets is Net/src/socket_handle.cpp,
--              Datagrams, Multicast and Publishing are Net/src/market_data_multicast.cpp. Ownership,
--              Arriving, Stray, Reaping and Serving are proofs.
--   PubSub     Polling is PubSub/src/subscriber.cpp with the like of it in
--              Server/src/trade_stream_reader.cpp, Catching the rest of its stop and Reader its
--              thread, Publisher is PubSub/src/publisher.cpp; Quiet, Unread, Sequences,
--              Accounts, Totals, Accounting and Running are proofs.
--   Tui        Tui/src/market_view_model.cpp; View has the handlers and Render the tables of
--              Tui/apps/tui_main.cpp
--   Server     Server/src/server.cpp with ingress_pump.cpp and the start and stop of
--              market_data_broadcaster.cpp and of Simulation/src/simulation.cpp. Pump, Lifecycle,
--              Coherence, Calls and Shutdown are proofs.
--   Bot        Bot/src/random_strategy.cpp, with the orders of its `run` in Orders; Symbols and
--              Connecting are Bot/apps/bot_main.cpp; Center is a proof
--   Apps       the arguments of Server/apps/server_main.cpp, Bot/apps/bot_main.cpp and
--              Tui/apps/tui_main.cpp; Endpoints is a proof
--   Tests      runs on small inputs
--
-- Conventions. A price is the rank of a double among all doubles, and 0 is NaN, since prices are only
-- compared, but for the arithmetic of a bot. Quantities of the aggregates wrap at 2 ^ 32 and sequences
-- of a buffer at 2 ^ 64, written out as remainders. A call that waits is an Option or an Outcome, which
-- tells that it does not return yet. The iterator that an index entry holds is the place of the order
-- with its id in its level.
--
-- Fuel. The inner loop of matching gets as many rounds as its two levels have orders, and pops one
-- in each; the outer loop as many as the book has levels, and erases one in each. `drain`,
-- `connection_loop` and the polling after a stop take their fuel as an argument, a round for each
-- message. The tape of the view gets as many rounds as it has trades. `stop` of the pump gets a round
-- for each message in the queue and one more, and the attempts of a bot to connect are as many as the
-- source allows.
--
-- Not modelled: what a thread is, beyond a flag or a number for it, and any data race; what the calls of
-- the system do, whose answers are arguments; widths, colours and the refreshing of the terminal; the
-- pauses of a bot; the demonstration of Simulation/apps and the benchmark, which have no logic of their
-- own, and what `main` of the server does after it has read its arguments. Of the assertions of debug
-- builds on the calling thread those of the three buffers of a shard are modelled, in Worker. The reading of numbers from a text, the hash of the router,
-- the bytes of a packed struct, a generator of random numbers, the arithmetic on doubles and the
-- printing of numbers are parameters.
pub mod Base
pub mod Orderbook
pub mod Queue
pub mod Messages
pub mod Sharding
pub mod Ingress
pub mod Net
pub mod PubSub
pub mod Tui
pub mod Server
pub mod Bot
pub mod Apps
mod Tests
