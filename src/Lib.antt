-- ===== src/Lib.antt =====
-- The order book and matching engine of Core_Infra, in C++.
--
-- The program. Gateways put events into an inbound ring buffer, one engine takes them in order, calls
-- the order book, and puts an acknowledgement into the outbound ring buffer of the gateway, from where
-- a reader thread can move it into a queue. The order book keeps an ordered map of price levels for
-- each side. A level is a doubly linked list of orders, and a hash map from order ids to orders reaches
-- into the lists.
--
-- The files
--   Prelude           names passed on, lists, maps, 64-bit values as integers, masks, ring windows
--   Orderbook         Core_Infra/orderbook.hpp and Core_Infra/orderbook.cpp
--     Types           the structs Fill, orderResult, Limit and Order, the class, and its memory
--     Command         a statement over the class and its memory, with the fault that a null or
--                     dangling pointer is
--     Methods         match, placeOrder, cancel and modify, statement by statement
--     Rep             the well-formed states, and the queues that they stand for
--     Match, Cancel, Modify, Safety, Reachable
--                     the methods on well-formed states
--     Views, Volumes, Changes
--                     cancel and modify against the specification
--     Quotes          match without the addresses of the orders
--     Tests, Examples scenarios of tests/orderbook_test.cpp, and the theorems at concrete books
--   Book              the specification: sides as sorted lists of prices with queues of orders
--   RingBuffer        Core_Infra/ring_buffer.hpp and Core_Infra/ring_buffer.cpp: Inbox and Outbox have
--                     the members of the two classes, Inbound is about the events that wait in a
--                     ring, Outbound about the acknowledgements, Protocol about the slots of
--                     both, Producers has `claim` by several producers, one access at a time,
--                     Overtake is about a producer that stops between `claim` and `publish`, and
--                     Deliveries about runs in which none is overtaken
--   Gateway           Core_Infra/gateway.hpp and Core_Infra/gateway.cpp: Posts and Contents are about the
--                     three methods that put events into the ring, Reads about the one that reads,
--                     Calls about any call that returns, Ids about the ids of orders
--   MatchingEngine    Core_Infra/matching_engine.hpp and Core_Infra/matching_engine.cpp: Rounds is about
--                     one round of the loop, Pipeline about gateways and engine together, Acks about
--                     the way of an acknowledgement, Contract about any list of requests against the
--                     specification, Bounds about the sizes of the levels, Failures about undefined
--                     rounds, Overflow about a gateway that does not keep up
--   GatewayReader     Core_Infra/gateway_reader.hpp and Core_Infra/gateway_reader.cpp: Rounds is about one
--                     round of the loop, Streams about the engine, the reader and the consumer of its
--                     queue together, when the reader keeps up
--   SpscQueue         Core_Infra/spsc_queue.hpp
--   LobsterReplayAdapter
--                     Core_Infra/lobster_replay_adapter.hpp and Core_Infra/lobster_replay_adapter.cpp:
--                     Strto has the conversions of the C library, Parser has parse_row, about which
--                     Grammar, RoundTrip and Malformed are, Stream has the loop over the lines, Rows is
--                     about dispatch, and Asks about what a line, or a text, asks of the order book
--   Main              main.cpp: the objects that it builds, with any order of calls, reads and rounds
--   MainReplay        main_replay.cpp: Runs and Ends are about the two threads of the program, Released
--                     about the test that it waits for
--
-- The order book. Memory is a function from addresses to objects, one for orders and one for limits,
-- and `new` gives out addresses that rise. The two branches of `Orderbook::match` mirror one another
-- and are one definition over `side`: a sell order trades with bids, listed from `rbegin()`, and a buy
-- order with asks, listed from `begin()`. `std::map` and `std::unordered_map` are lists of entries with
-- different keys. The loops of `match` are functions on fuel: the outer loop gets a round more than
-- there are levels, and the inner loop a round more than the level counts orders.
--
-- Values of type `int64_t` are integers. Signed overflow, which C++ leaves undefined, is not modelled,
-- nor is a failed allocation.
--
-- The rings. A sequence number and the pointers of the queue are numbers from 0 on. A call of a gateway
-- and a round of the engine are each one step: `claim` in Inbox is a round in which no other producer
-- acts between its load and its compare and swap, and a call that spins there, since the slot is not
-- released, waits. A failed `assert` aborts. `getCurrentTime` is an argument. In the queue between two
-- threads, each side may see an old value of the other's pointer.
--
-- The message file. A text is the list of its bytes. `std::strtod`, with the cast of its value times 1e9
-- to `int64_t`, is an argument; `long` has 64 bits and `int` 32. The loop of `process_stream` gets more
-- fuel than the text has bytes. In main_replay.cpp a line of the file
-- and a round of the engine are each one step, in any order, and a thread that waits takes none.
--
-- Not modelled: the start and the join of threads, the script of calls in main.cpp, and the clock, the deadline
-- and the output of main_replay.cpp.
pub mod Book
pub mod Gateway
pub mod GatewayReader
pub mod LobsterReplayAdapter
pub mod Main
pub mod MainReplay
pub mod MatchingEngine
pub mod Orderbook
pub mod Prelude
pub mod RingBuffer
pub mod SpscQueue
