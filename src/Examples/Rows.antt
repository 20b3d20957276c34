-- ===== src/Examples/Rows.antt =====
-- Runs of the database: a request for USD/MXN that is created, claimed and closed with a quote.
use plata_test_task.Prelude.{
  ℕ, ℤ, pos, codes, text_eq, ◌≡◌, refl, Bool, false, none, lookup, nat_eq, All, All-lookup,
  if◌then◌else◌, insert,
}
use plata_test_task.Errors.{text, ok}
use plata_test_task.Domain.Currency.{valid, contains}
use plata_test_task.Domain.Pair.{new_currency_pair}
use plata_test_task.Domain.Update.Machine.{status_eq}
use plata_test_task.Domain.Update.{new_currency_rate_update_request}
use plata_test_task.Memory
use plata_test_task.Memory.History.Validity.{IsValid}
use plata_test_task.Provider.{parsed, unparsed}
use plata_test_task.Postgres.Schema.{
  Database, UpdateRow, QuoteRow, Numeric, Session, answered, lost, quiet, empty_database,
}
use plata_test_task.Postgres.Rows.{auto_commit, query}
use plata_test_task.Postgres.Claim.{claimed}
use plata_test_task.Postgres
use plata_test_task.Postgres.Requests
use plata_test_task.Postgres.Runs.{create, claim, succeed, step, Reach, start, next}
use plata_test_task.Postgres.Runs.Validity.{Reach-seen_as-IsValid}
use plata_test_task.Postgres.Abstract.{seen_as, map_rows-IsUnique, record_of}
use plata_test_task.Postgres.Refinement.{Carried}
use plata_test_task.Postgres.Refinement.Journal.{kept_rate}
use plata_test_task.Postgres.Refinement.Creation.{create_update_request-Carried}
use plata_test_task.Postgres.Refinement.Closing.{complete_success-Carried}
use plata_test_task.Postgres.Refinement.Batch.{Claiming, claim_batch-Claiming}
use plata_test_task.Postgres.Refinement.Reads.{IsReadable, SameReads, seen_as-SameReads}
use plata_test_task.Postgres.Refinement.Quiet.{SameAnswers, quiet-SameAnswers}
use plata_test_task.Examples.Data.{usd_mxn, at_second, order_key, rate_one}

-- Decimals that are all written as 17.
abbrev pub numeric : Numeric ℤ
numeric = record {
  string = λ v. codes "17";
  column = λ t. parsed t;
  new_from_string = λ t. if text_eq t (codes "17") then parsed (pos 17) else unparsed (text t);
}

abbrev pub no_locks : ℕ → Bool
no_locks id = false

-- A session whose commit is answered too late.
abbrev pub lost_commit : Session
lost_commit = record quiet { commit = lost (text (codes "connection reset")) }

abbrev pub created_rows : Database
created_rows = step numeric empty_database (create answered 7 usd_mxn (at_second 100) order_key)

abbrev claimed_rows : Database
claimed_rows = step numeric created_rows (claim answered no_locks 10 (at_second 101) (at_second 71))

abbrev closed_rows : Database
closed_rows = step numeric claimed_rows (succeed lost_commit 7 usd_mxn rate_one (at_second 102))

fresh_seven : lookup 7 empty_database.quote_updates ≡ none
unfolding empty_database lookup
fresh_seven = refl

pub created_rows-Reach : Reach numeric created_rows
created_rows-Reach = next (create answered 7 usd_mxn (at_second 100) order_key) start fresh_seven

claimed_rows-Reach : Reach numeric claimed_rows
claimed_rows-Reach =
    next (claim answered no_locks 10 (at_second 101) (at_second 71)) created_rows-Reach tt

closed_rows-Reach : Reach numeric closed_rows
closed_rows-Reach =
    next (succeed lost_commit 7 usd_mxn rate_one (at_second 102)) claimed_rows-Reach tt

Reach-seen_as-IsValid_example : IsValid (seen_as numeric (pos 0) closed_rows)
Reach-seen_as-IsValid_example = Reach-seen_as-IsValid numeric (pos 0) closed_rows-Reach

create_update_request-Carried_example :
    Carried numeric
      (pos 0)
      answered
      empty_database
      (Memory.create_update_request
        (seen_as numeric (pos 0) empty_database)
        (new_currency_rate_update_request 7 usd_mxn (at_second 100))
        order_key)
      (Requests.create_update_request answered empty_database
        (new_currency_rate_update_request 7 usd_mxn (at_second 100))
        order_key)
create_update_request-Carried_example =
    create_update_request-Carried numeric (pos 0) empty_database 7 usd_mxn (at_second 100) order_key
      fresh_seven answered

complete_success-Carried_example :
    Carried numeric
      (pos 0)
      lost_commit.commit
      claimed_rows
      (Memory.complete_success
        (seen_as numeric (pos 0) claimed_rows)
        7
        usd_mxn
        (kept_rate numeric (pos 0) rate_one)
        (at_second 102))
      (Postgres.complete_success numeric lost_commit claimed_rows 7 usd_mxn rate_one
        (at_second 102))
complete_success-Carried_example =
    complete_success-Carried numeric (pos 0) claimed_rows 7 lost_commit usd_mxn rate_one
      (at_second 102)

claim_batch-Claiming_example :
    Claiming created_rows no_locks 10
      (at_second 101)
      (at_second 71)
      numeric
      (pos 0)
      (claimed created_rows no_locks 10 (at_second 101) (at_second 71))
claim_batch-Claiming_example =
    claim_batch-Claiming created_rows no_locks 10 (at_second 101) (at_second 71) numeric (pos 0) (
      map_rows-IsUnique record_of created_rows.quote_updates
        (Reach-seen_as-IsValid numeric (pos 0) created_rows-Reach).unique)

quiet-SameAnswers_example : SameAnswers numeric (pos 0) claimed_rows 7
quiet-SameAnswers_example = quiet-SameAnswers numeric (pos 0) claimed_rows 7

pairs_allowed :
    All
      (λ (x : ℕ × UpdateRow).
        new_currency_pair x.1.base x.1.quote ≡ ok (record { base = x.1.base; quote = x.1.quote }))
      closed_rows.quote_updates
unfolding step Postgres.complete_success Postgres.Journal.upsert_quote Postgres.Journal.find_row
    Postgres.Claim.claim_batch auto_commit Requests.create_update_request lookup insert
    empty_database text_eq Requests.find_key Requests.key_is Postgres.Rows.annotate
    Postgres.complete_success_tx query Postgres.update_in_progress Postgres.Claim.update_claimed
    claimed Postgres.Claim.order_by contains valid new_currency_pair status_eq
    new_currency_rate_update_request Postgres.Claim.claimed_row Postgres.Claim.insert_by
    Postgres.Claim.is_pending Postgres.Claim.is_stuck Postgres.Claim.locked_before
    Postgres.Claim.pending_candidates Postgres.Claim.stuck_candidates Postgres.Journal.after_insert
    Postgres.Journal.insert_sent Postgres.Journal.inserted Postgres.Journal.quote_row
    Requests.inserted_update Requests.new_row Requests.null_if_empty Requests.violated
    Postgres.after_upsert Postgres.begun Postgres.committed Postgres.referenced Postgres.roll_back
    Postgres.succeeded_row Postgres.Claim.locked_key
pairs_allowed = (refl, tt)

rates_parse :
    All
      (λ (x : ℕ × QuoteRow). (value : ℤ) × (numeric.new_from_string x.1.rate ≡ parsed value))
      closed_rows.quotes
unfolding step Postgres.complete_success Postgres.Journal.upsert_quote Postgres.Journal.find_row
    Postgres.Claim.claim_batch auto_commit Requests.create_update_request lookup insert
    empty_database text_eq Requests.find_key Requests.key_is Postgres.Rows.annotate
    Postgres.complete_success_tx query Postgres.update_in_progress Postgres.Claim.update_claimed
    claimed Postgres.Claim.order_by contains valid new_currency_pair status_eq
    new_currency_rate_update_request Postgres.Claim.claimed_row Postgres.Claim.insert_by
    Postgres.Claim.is_pending Postgres.Claim.is_stuck Postgres.Claim.locked_before
    Postgres.Claim.pending_candidates Postgres.Claim.stuck_candidates Postgres.Journal.after_insert
    Postgres.Journal.insert_sent Postgres.Journal.inserted Postgres.Journal.quote_row
    Requests.inserted_update Requests.new_row Requests.null_if_empty Requests.violated
    Postgres.after_upsert Postgres.begun Postgres.committed Postgres.referenced Postgres.roll_back
    Postgres.succeeded_row Postgres.Claim.locked_key
rates_parse = ((pos 17, refl), tt)

closed_rows-IsReadable : IsReadable numeric closed_rows
closed_rows-IsReadable = record {
  pairs = λ id row there.
      All-lookup
        (λ (row : UpdateRow).
          new_currency_pair row.base row.quote ≡ ok (record { base = row.base; quote = row.quote }))
        closed_rows.quote_updates id row pairs_allowed there;
  rates = λ id q there.
      All-lookup (λ (q : QuoteRow). (value : ℤ) × (numeric.new_from_string q.rate ≡ parsed value))
        closed_rows.quotes id q rates_parse there;
}

seen_as-SameReads_example : SameReads numeric (pos 0) closed_rows
seen_as-SameReads_example =
    seen_as-SameReads numeric (pos 0) closed_rows closed_rows-IsReadable
      (Reach-seen_as-IsValid numeric (pos 0) closed_rows-Reach)
