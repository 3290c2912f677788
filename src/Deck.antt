-- ===== src/Deck.antt =====
-- processes/lobby/deck.h and processes/lobby/deck.cpp: cards, the order of cards, the brands of
-- rows of three and five cards, and the special brands of thirteen cards.
pub mod Cards
pub mod Suit
pub mod Rank
pub mod Brands
pub mod Sorting
pub mod Row3
pub mod Row5
pub mod Agreement
pub mod Shape
pub mod Rules
pub mod Strength
pub mod Special
