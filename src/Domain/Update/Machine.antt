-- ===== src/Domain/Update/Machine.antt =====
-- internal/domain/quotes/update_request.go: the statuses and the moves between them.
use plata_test_task.Prelude.{Text, codes, text_eq, Bool, true, false, List, [], ◌∷◌, if◌then◌else◌}

-- `type CurrencyRateUpdateStatus string`: the four constants, and any other string.
pub data Status : Type 0 where
  pending in_progress succeeded failed : Status
  unknown : Text → Status

unfoldable pub status_text : Status → Text
status_text pending = codes "pending"
status_text in_progress = codes "in_progress"
status_text succeeded = codes "succeeded"
status_text failed = codes "failed"
status_text (unknown s) = s

unfoldable pub status_eq : Status → Status → Bool
status_eq pending pending = true
status_eq in_progress in_progress = true
status_eq succeeded succeeded = true
status_eq failed failed = true
status_eq (unknown s) (unknown t) = text_eq s t
status_eq _ _ = false

unfoldable pub contains_status : List Status → Status → Bool
contains_status [] s = false
contains_status (t ∷ ts) s = let rest = contains_status ts s in if status_eq t s then true else rest

unfoldable pub valid_next_statuses : Status → List Status
valid_next_statuses pending = in_progress ∷ []
valid_next_statuses in_progress = succeeded ∷ failed ∷ pending ∷ []
valid_next_statuses _ = []

-- `CurrencyRateUpdateStatus.Valid`
unfoldable pub valid_status : Status → Bool
valid_status s = contains_status (pending ∷ in_progress ∷ succeeded ∷ failed ∷ []) s

unfoldable pub can_transition_to : Status → Status → Bool
can_transition_to s next = contains_status (valid_next_statuses s) next
