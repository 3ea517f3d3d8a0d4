-- ===== src/Tests.antt =====
-- Runs of the model on small inputs, and each theorem at an input that meets its hypotheses.
mod Queries
mod Platform
mod Comparisons
mod Searches
mod Collations
mod Articles
mod Libraries
mod Settings
mod Masks
mod Spellings
mod Connections
mod Sessions
mod Walks
mod WordLists
mod PagedFiles
