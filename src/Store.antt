-- ===== src/Store.antt =====
-- SP_LAB5: the key-value store, from the reader-writer lock to the served command.
mod Tests
pub mod RwLock
pub mod Chain
pub mod Table
pub mod Parse
pub mod Serve
