-- ===== src/World.antt =====
-- src/cee_core/world_schema.py and src/cee_core/world_state.py. `Schema` holds the records,
-- `State` the state with its queries, `Update` the operations, which return a new state; the
-- proofs are in `Identity`, `Shape` and `Facts`.
pub mod Schema
pub mod State
pub mod Update
pub mod Change
pub mod Identity
pub mod Shape
pub mod Facts
