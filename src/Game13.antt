-- ===== src/Game13.antt =====
-- processes/lobby/game13.h and processes/lobby/game13.cpp: the thirteen-card game.
pub mod Round
pub mod Table
pub mod Actions
pub mod Dealing
pub mod Settling
pub mod Handlers
pub mod Invariant
pub mod Voting
pub mod Hands
pub mod Counts
pub mod Closing
pub mod Entering
