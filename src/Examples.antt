-- ===== src/Examples.antt =====
-- Concrete runs of the development: tests, and the theorems at inputs where their hypotheses hold.
mod Sessions
mod Requests
mod Limits
mod Confirmations
mod Offers
mod Turns
mod Frames
mod Speech
mod Requesters
mod Tools
mod Agents
