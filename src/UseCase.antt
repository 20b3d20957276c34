-- ===== src/UseCase.antt =====
-- internal/usecase/quotes: the port to the storage, and the use cases of the API over it.
pub mod Port
pub mod Requests
