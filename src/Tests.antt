-- ===== src/Tests.antt =====
-- Concrete runs: a page, a parser, encodings and machines, and the theorems applied to them.
mod Page
mod Parser
mod Coder
mod Documents
mod Streams
mod Marshalling
mod Encodings
mod Sessions
mod Writes
mod Decoders
mod Queries
mod Elements
mod Texts
mod Total
