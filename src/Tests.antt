-- ===== src/Tests.antt =====
-- The theorems at concrete inputs, on a database over a list for the tree and a list for the log.
mod ListTree
mod ListLog
mod Engine
mod Watching
mod Coding
mod Indexing
mod Batches
mod Probing
mod Storing
mod Scanning
mod Answering
mod Loading
mod Files
mod Network
mod Readding
mod Routing
mod Expiring
mod Merging
mod Moving
mod Hashing
