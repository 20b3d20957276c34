-- ===== src/Postgres/Schema.antt =====
-- internal/storage/postgres/migrations/*.sql: the rows of the two tables, and what a session with the
-- database can come to. A table lists its rows under their primary key; instants and texts are kept
-- as they are written.
use plata_test_task.Prelude.{ℕ, ℤ, Text, Bool, Option, none, some, Table, []}
use plata_test_task.Errors.{Message, no_message}
use plata_test_task.Domain.Update.Machine.{Status}
use plata_test_task.Provider.{Parsed}

-- A row of `quote_updates`, its `id` apart.
pub record UpdateRow : Type 0 where
  pub base : Text
  pub quote : Text
  pub status : Status
  pub idempotency_key : Option Text
  pub attempts : ℕ
  pub next_attempt_at : ℤ
  pub locked_at : Option ℤ
  pub quote_id : Option ℕ
  pub error_code : Option Text
  pub error_message : Option Message
  pub created_at : ℤ
  pub updated_at : ℤ
  pub reused : Option Bool

-- A row of `quotes`, its `id` apart. The rate is the text that `rate::text` reads.
pub record QuoteRow : Type 0 where
  pub base : Text
  pub quote : Text
  pub rate : Text
  pub provider : Text
  pub quality : Text
  pub derived : Bool
  pub indicative : Bool
  pub quoted_at : ℤ
  pub fetched_at : ℤ
  pub stale_after : ℤ

-- `next_quote_id` is the last value of the sequence behind BIGSERIAL.
pub record Database : Type 0 where
  pub quote_updates : Table ℕ UpdateRow
  pub quotes : Table ℕ QuoteRow
  pub next_quote_id : ℕ

unfoldable pub empty_database : Database
empty_database = record { quote_updates = []; quotes = []; next_quote_id = 0 }

-- What the driver reports of a statement: its outcome, a failure that left no effect, or a failure
-- that hides whether the statement, or the transaction that it ends, took effect.
pub data Wire : Type 0 where
  answered : Wire
  refused : Message → Wire
  lost : Message → Wire

-- The statements of one call that runs in a transaction. `reread` is the status that the last SELECT
-- finds, given the one before it: another session may have committed in between.
pub record Session : Type 0 where
  pub begin : Wire
  pub insert : Wire
  pub winner : Wire
  pub update : Wire
  pub select : Wire
  pub commit : Wire
  pub reread : Option Status → Option Status

-- A session without faults and without other writers.
abbrev pub quiet : Session
quiet = record {
  begin = answered;
  insert = answered;
  winner = answered;
  update = answered;
  select = answered;
  commit = answered;
  reread = λ found. found;
}

-- The decimal package and NUMERIC(24,10): `column` is the text that a stored decimal is read back as,
-- or the database's refusal.
pub record Numeric (D : Type 0) : Type 0 where
  pub string : D → Text
  pub column : Text → Parsed Text
  pub new_from_string : Text → Parsed D

abbrev pub deref_or_empty : Option Text → Text
deref_or_empty none = []
deref_or_empty (some s) = s

-- The same, of the column that holds a message.
abbrev pub deref_message : Option Message → Message
deref_message none = no_message
deref_message (some m) = m
