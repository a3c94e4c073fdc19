-- ===== src/Tests.antt =====
-- Runs of the definitions at concrete inputs, and each theorem at an input that meets its
-- hypotheses.
mod Sample
mod Stats
mod Rates
mod Pairs
mod Caches
mod Polls
mod Configs
mod Tables
mod Histories
mod Api
mod Fetches
mod Starts
mod Overlaps
mod Opens
mod Mains
mod Retentions
