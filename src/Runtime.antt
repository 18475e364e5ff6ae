-- ===== src/Runtime.antt =====
-- What the operations run on: the database and caches as a state, the Dokku and GitHub ports and
-- the broker as an environment, and methods that change the state and may raise.
pub mod World
pub mod Effects
pub mod Frame
pub mod Triples
pub mod Ensures
