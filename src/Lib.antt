-- ===== src/Lib.antt =====
-- An electronic exchange and its trading clients (chapter 6 of the repository: ch06).
--
-- Clients send requests through an order gateway (ch06/trading/order_gw) over TCP to the exchange's
-- order server (ch06/exchange/order_server). The server checks the sequence numbers, and its FIFO
-- sequencer hands each round's requests, ordered by their times of arrival, to the matching engine
-- (ch06/exchange/matcher), which matches them in a limit order book for each ticker. The responses go
-- back through the order server, the market updates to the market data publisher, which multicasts
-- them under consecutive numbers; a snapshot synthesizer keeps the live orders and multicasts them now
-- and then, for clients that missed an update (ch06/trading/market_data). Threads are
-- connected by lock-free queues (ch06/common/lf_queue.h), and objects come from memory pools
-- (ch06/common/mem_pool.h).
--
-- What models what:
--   MemPool, MemPool/*       ch06/common/mem_pool.h: `MemPool<T>`; a pointer is the index of a block
--   LfQueue, LfQueue/*       ch06/common/lf_queue.h: `LFQueue<T>`; `push` is the pair of calls
--                            `getNextToWriteTo`, `updateWriteIndex` that every writer makes
--   LfQueue/Threads          a queue's writing and reading threads, interleaved between their accesses
--                            to the indices, which are atomic and in one order for both
--   Types, Messages/*        ch06/common/types.h and the messages' structs
--   Matcher/Order, /State    ch06/exchange/matcher/me_order.h, the fields of `MEOrderBook`, and reads
--                            and writes through its pointers
--   Matcher/Links            the rings of orders and price levels in me_order_book.h
--   Matcher/Trade            `match`, `checkForMatch`, `add`, `cancel` of me_order_book.cpp
--   Framing                  the loop of the receive callbacks, which cuts a buffer into messages
--   OrderServer, /Fifo       ch06/exchange/order_server: `OrderServer`, `FIFOSequencer`
--   MatchingEngine           ch06/exchange/matcher/matching_engine.h: a request goes to its ticker's
--                            book, and what the book sends into two queues
--   OrderGateway             ch06/trading/order_gw: `OrderGateway`
--   MarketData/Publisher     ch06/exchange/market_data/market_data_publisher.cpp
--   MarketData/Synthesizer   ch06/exchange/market_data/snapshot_synthesizer.cpp
--   MarketData/Consumer      ch06/trading/market_data/market_data_consumer.cpp; a `std::map` is the
--                            list of its entries by ascending keys
--   MarketData/Follow        a snapshot and a client that recovers from it
--   Session                  a gateway and the server at the two ends of a connection
--   MarketBook, MarketBook/* ch06/trading/strategy/market_order.h and market_order_book.*: the client's
--                            copy of a book, and the best bid and offer
--   Sockets/Tcp, /Mcast      ch06/common/tcp_socket.* and mcast_socket.*: the buffers of a socket
--   Sockets/Server           ch06/common/tcp_server.*: the lists of connections
--   Sockets/Create, /Open    ch06/common/socket_utils.h: `createSocket`, and its callers
--   Logging, Logging/*       ch06/common/logging.h: `log` and `flushQueue`
--   Texts, Texts/*           the `toString` functions of the messages, orders, levels and books; the
--                            two books share theirs, which sees a book as a `View`
-- Files below these hold what is proved of them, and their runs at concrete inputs (Tests).
--
-- An operation that may end the process returns a `Result`: `abort assertion` is a failed `ASSERT`,
-- `abort fatal` a `FATAL`, `abort out_of_range` the exception of `at` in a `noexcept` function, and
-- `abort undefined` undefined behaviour. The order book's operations pass a `MeOrderBook` on; the calls
-- of the matching engine that send a message are collected in its field `sent`.
-- An enum has, beside its names, `unnamed` values, which a message from the network may hold.
--
-- Loops on fuel: `find_free` gets one round more than the pool has blocks, after which the walk is
-- back where it began; `match_loop` gets two rounds more than the order pool has blocks, since each
-- round but the last gives a block back; `split` gets one round more than there are bytes;
-- `find_place` gets one round more than the pool has levels, enough for a walk round their ring;
-- `send_responses`, `send_requests` and `publish_updates` get the queue's size.
--
-- The loop of `flushQueue` gets the queue's size, `add_quantities` one round more than there are
-- orders in the pool; `clear_levels` gets two, since its second round ends the process. `to_string`
-- gets one round more than the number, which has no more digits than that.
--
-- Parameters: `std::sort`, of which `Sorts` states what it promises; the reading of packed structs from
-- bytes; how a file stream writes a number; and what the system calls answer: the bytes that a read
-- gives, how many bytes a send takes, the events of `epoll_wait`, and whether a call succeeds. A
-- connection is its descriptor; the order server and the gateways put whole messages into a list,
-- and the bytes of a socket's buffers are in Sockets. The lines that the components log are left
-- out, and so are times and sleeping, and threads but for a queue's two. A Boolean says whether a
-- multicast group can be joined.
--
-- Not modelled: the starting and stopping of threads, the constructors that open sockets or leave
-- arrays without a value, the socket options that are one system call each, and the trade engine,
-- whose files are empty: the calls that the client's book makes on it are collected in the field
-- `told`.
pub mod Framing
pub mod LfQueue
pub mod Logging
pub mod MarketBook
pub mod MarketData
pub mod Matcher
pub mod MatchingEngine
pub mod MemPool
pub mod Messages
pub mod Numbering
pub mod OrderGateway
pub mod OrderServer
pub mod Prelude
pub mod Session
pub mod Sockets
pub mod Texts
pub mod Types
