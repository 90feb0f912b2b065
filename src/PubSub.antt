-- ===== src/PubSub.antt =====
-- PubSub/inc/PubSub and PubSub/src: who reads which of the shards' buffers, and how; with
-- Server/src/trade_stream_reader.cpp, which polls in the same way.
pub mod Polling
pub mod Quiet
pub mod Publisher
pub mod Unread
pub mod Catching
pub mod Sequences
pub mod Reader
pub mod Accounts
pub mod Totals
pub mod Accounting
pub mod Running
