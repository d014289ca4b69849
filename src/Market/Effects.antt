-- ===== src/Market/Effects.antt =====
-- What single calls of the marketplace do, when they answer with a record.
pub mod Accept
pub mod Access
pub mod Payment
