-- ===== src/Stats.antt =====
-- src/quitsies/stats: the statistics that the program sends to a statsd server.
pub mod Table
pub mod Statsd
pub mod Aggregator
pub mod Epoch
pub mod Client
pub mod Lifetime
pub mod Totals
pub mod Canonical
pub mod Orders
mod Tests
