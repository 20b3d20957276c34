-- ===== src/Domain.antt =====
-- internal/domain/quotes: currency codes and pairs, rates, the typed provider error, and the update
-- request with its status machine.
pub mod Currency
pub mod Pair
pub mod Rate
pub mod RateError
pub mod Update
