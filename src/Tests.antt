-- ===== src/Tests.antt =====
-- Runs of the definitions, and each theorem at a concrete input.
mod Json
mod Queue
mod Weak
mod Mutex
mod Limiter
mod Hash
mod Messages
mod Requests
mod Reception
mod Files
mod Times
mod Tokens
mod Delivery
mod Rings
mod Sessions
mod Closings
mod Logs
mod Download
mod Fetches
