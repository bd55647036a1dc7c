-- ===== src/Examples.antt =====
-- The theorems at concrete inputs, and runs of the definitions.
mod Strings
mod Masks
mod Lists
mod Users
mod Timing
mod Tracks
mod Sockets
mod Serving
mod Chat
mod Tables
