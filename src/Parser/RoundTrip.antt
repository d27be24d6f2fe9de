-- ===== src/Parser/RoundTrip.antt =====
-- What the parser makes of the text that `Tag::xml` gives.
pub mod Runs
pub mod Content
pub mod Names
pub mod Attributes
pub mod Heads
pub mod NewHead
pub mod Readable
pub mod Open
pub mod Close
pub mod Nodes
pub mod Tags
pub mod Stanzas
