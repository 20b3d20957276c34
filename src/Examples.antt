-- ===== src/Examples.antt =====
-- Concrete runs of the service: the data that they share, and one module for each part.
mod Data
mod Config
mod Domain
mod Memory
mod Limiter
mod Work
mod Api
mod Routes
mod Pass
mod Rows
mod Connected
mod Loop
mod Start
