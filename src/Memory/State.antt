-- ===== src/Memory/State.antt =====
-- internal/storage/memory/repository.go: the state of the repository.
use plata_test_task.Prelude.{ℕ, ℤ, pos, Text, Table, []}
use plata_test_task.Domain.Pair.{CurrencyPair}
use plata_test_task.Domain.Rate.{CurrencyRate}
use plata_test_task.Domain.Update.{CurrencyRateUpdateRequest}

-- The zero `time.Time` of a field that the literal leaves out.
abbrev pub zero_instant : ℤ
zero_instant = pos 0

pub record Record : Type 0 where
  pub req : CurrencyRateUpdateRequest
  pub idempotency_key : Text
  pub next_attempt_at : ℤ
  pub locked_at : ℤ
  pub quote_id : ℕ  -- 0 means no quote yet

pub record StoredQuote (D : Type 0) : Type 0 where
  pub pair : CurrencyPair
  pub rate : CurrencyRate D

pub record Repository (D : Type 0) : Type 0 where
  pub records : Table ℕ Record
  pub idempotency_index : Table Text ℕ
  pub quotes : Table ℕ (StoredQuote D)
  pub next_quote_id : ℕ

unfoldable pub new_repository : (D : Type 0) → Repository D
new_repository D = record { records = []; idempotency_index = []; quotes = []; next_quote_id = 0 }
