-- ===== src/Queries.antt =====
-- data/query_parser.py: queries that are derived from the names of repository methods.
pub mod Parser
mod Orders
pub mod Printing
mod Tests
