-- ===== src/Examples/Memory.antt =====
-- Runs of the in-process storage.
use plata_test_task.Prelude.{ℕ, ◌≡◌, refl, inl, ◌⊎◌, none, some, lookup, nat_eq, text_keys, List}
use plata_test_task.Errors.{err, not_found, ok}
use plata_test_task.Memory.State.{Record}
use plata_test_task.Memory.Claim.{Entry}
use plata_test_task.Memory.Claim.Priority.{Split, claim_batch-Split}
use plata_test_task.Memory.Quotes.{find_or_create_quote, get_latest_quote}
use plata_test_task.Memory.Quotes.Journal.{Stored, find_or_create_quote-Stored}
use plata_test_task.Memory.Quotes.Latest.{IsLatest, get_latest_quote-IsLatest}
use plata_test_task.Memory.{get_by_idempotency_key}
use plata_test_task.Memory.History.{claim, step}
use plata_test_task.Memory.History.Progress.{Change, step_change}
use plata_test_task.Memory.History.Validity.{IsValid, Reach-IsValid}
use plata_test_task.Memory.History.Terminal.{
  now, after, terminal_kept, get_by_idempotency_key_total,
}
use plata_test_task.Examples.Data.{
  usd_mxn, at_second, order_key, rate_one, created_storage, claimed_storage, closed_storage,
  created_Reach, claimed_Reach, closed_Reach, record_claimed, claimed_there, record_closed,
  closed_there,
}

Reach-IsValid_example : IsValid closed_storage
Reach-IsValid_example = Reach-IsValid closed_Reach

claim_batch-Split_example :
    (claimed : List Entry) × (waiting : List Entry) × Split created_storage 10
      (at_second 101)
      (at_second 71)
      claimed
      waiting
claim_batch-Split_example =
    claim_batch-Split created_storage 10 (at_second 101) (at_second 71)
      (Reach-IsValid created_Reach).unique

find_or_create_quote-Stored_example :
    Stored closed_storage usd_mxn rate_one (find_or_create_quote closed_storage usd_mxn rate_one)
find_or_create_quote-Stored_example =
    find_or_create_quote-Stored closed_storage usd_mxn rate_one (Reach-IsValid closed_Reach).journal

get_latest_quote-IsLatest_example :
    IsLatest closed_storage usd_mxn (get_latest_quote closed_storage usd_mxn)
get_latest_quote-IsLatest_example =
    get_latest_quote-IsLatest closed_storage usd_mxn (Reach-IsValid closed_Reach).journal.unique

step_change_example :
    Change record_claimed
      (lookup 7 (step claimed_storage (claim 10 (at_second 200) (at_second 170))).records)
step_change_example =
    step_change claimed_storage 7 record_claimed claimed_there (Reach-IsValid claimed_Reach).unique
      (claim 10 (at_second 200) (at_second 170)) tt

terminal_kept_example :
    lookup 7 (step closed_storage (claim 10 (at_second 200) (at_second 170))).records
    ≡ some record_closed
terminal_kept_example =
    terminal_kept 7 record_closed closed_Reach
      (after (claim 10 (at_second 200) (at_second 170)) now tt) closed_there (inl refl)

get_by_idempotency_key_total_example :
    ((lookup order_key closed_storage.idempotency_index ≡ none)
      × (get_by_idempotency_key closed_storage order_key ≡ err not_found))
    ⊎ ((id : ℕ) × (rec : Record) × (lookup order_key closed_storage.idempotency_index ≡ some id)
        × (lookup id closed_storage.records ≡ some rec)
        × (rec.idempotency_key ≡ order_key)
        × (get_by_idempotency_key closed_storage order_key ≡ ok rec.req))
get_by_idempotency_key_total_example =
    get_by_idempotency_key_total closed_storage order_key closed_Reach
