-- ===== src/Componet.antt =====
-- The components of the base library (water/componet).
pub mod CircularQueue
pub mod FastTravelMap
pub mod SpscQueue
pub mod Serialize
pub mod Event
