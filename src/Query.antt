-- ===== src/Query.antt =====
-- api/query.py, and api/connection.py for the answers: the queries that the API sends to a server and
-- what is made of the answers.
pub mod Answers
pub mod Parsed
pub mod Defines
pub mod Hierarchy
pub mod Reversed
pub mod Subclasses
pub mod Batches
pub mod Known
