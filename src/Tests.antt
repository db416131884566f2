-- ===== src/Tests.antt =====
-- Runs of the definitions at concrete inputs, and the theorems applied at such inputs.
mod Serving
mod Documents
mod Threads
mod Requests
mod Forms
mod Answers
mod Posts
mod Logs
mod Starts
mod Messages
mod Transfers
mod Clock
mod Queries
mod Values
mod Parts
mod Trees
mod Served
mod Templates
