-- ===== src/Domain/Update.antt =====
-- internal/domain/quotes/update_request.go: the update request and its status machine.
pub mod Machine
pub mod Moves
use plata_test_task.Prelude.{
  ℕ, ℤ, Text, codes, text_eq, Bool, true, false, List, [], ◌∷◌, if◌then◌else◌,
}
use plata_test_task.Errors.{Message, text, no_message, ◌<>◌, Result, ok, err, other, Error}
use plata_test_task.Domain.Pair.{CurrencyPair}
use Machine.{Status, pending, can_transition_to, status_text}

pub record CurrencyRateUpdateRequest : Type 0 where
  pub id : ℕ  -- the 128 bits of the UUID, whose text has their order
  pub pair : CurrencyPair
  pub status : Status
  pub created_at : ℤ
  pub updated_at : ℤ
  pub attempts : ℕ
  pub error_code : Text
  pub error_message : Message
  pub reused : Bool

-- The identifier that `uuid.NewV7()` makes is an argument.
unfoldable pub new_currency_rate_update_request : ℕ → CurrencyPair → ℤ → CurrencyRateUpdateRequest
new_currency_rate_update_request id pair now = record {
  id = id;
  pair = pair;
  status = pending;
  created_at = now;
  updated_at = now;
  attempts = 0;
  error_code = [];
  error_message = no_message;
  reused = false;
}

-- The error of an illegal transition.
unfoldable pub invalid_transition : Status → Status → Error
invalid_transition from to = other (
    text (codes "invalid status transition: ")
    <> text (status_text from)
    <> text (codes " -> ")
    <> text (status_text to))

unfoldable pub transition_to :
    CurrencyRateUpdateRequest → Status → ℤ → Result CurrencyRateUpdateRequest
transition_to req next now =
    if can_transition_to req.status next
    then ok (record req { status = next; updated_at = now })
    else err (invalid_transition req.status next)
