-- ===== src/Tests.antt =====
-- Runs of the definitions on the inputs that deck.cpp's own tests use, and each theorem at an input
-- that meets its hypotheses.
mod Decks
mod Rounds
mod Games
mod Network
mod Logins
mod Queues
mod Checks
