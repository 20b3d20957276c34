-- ===== src/Domain/Update/Moves.antt =====
-- internal/domain/quotes/update_request.go: the moves that the status machine allows, described on
-- their own, and what they mean for a request.
use plata_test_task.Prelude.{◌≡◌, refl, ◌↔◌, ◌⊎◌, inl, inr, true, false, ℤ, arith, ap, text_eq_iff}
use plata_test_task.Errors.{ok}
use plata_test_task.Domain.Update.Machine.{
  Status, pending, in_progress, succeeded, failed, can_transition_to, contains_status,
  valid_next_statuses, status_eq, unknown,
}
use plata_test_task.Domain.Update.{CurrencyRateUpdateRequest, transition_to}

-- A claim, a success, a final failure, a retry.
pub data Move : Status → Status → Type 0 where
  claimed : Move pending in_progress
  completed : Move in_progress succeeded
  gave_up : Move in_progress failed
  requeued : Move in_progress pending

pub status_eq_sound : (s t : Status) → status_eq s t ≡ true → s ≡ t
unfolding status_eq
status_eq_sound pending pending h = refl
status_eq_sound in_progress in_progress h = refl
status_eq_sound succeeded succeeded h = refl
status_eq_sound failed failed h = refl
status_eq_sound (unknown s) (unknown t) h = ap unknown ((text_eq_iff s t).0 h)
status_eq_sound _ _ h = cc

pub Move-of_test : (s t : Status) → can_transition_to s t ≡ true → Move s t
unfolding can_transition_to contains_status valid_next_statuses status_eq
Move-of_test pending in_progress h = claimed
Move-of_test in_progress succeeded h = completed
Move-of_test in_progress failed h = gave_up
Move-of_test in_progress pending h = requeued
Move-of_test _ _ h = cc

pub test_of_Move : {s t : Status} → Move s t → can_transition_to s t ≡ true
unfolding can_transition_to contains_status valid_next_statuses status_eq
test_of_Move claimed = refl
test_of_Move completed = refl
test_of_Move gave_up = refl
test_of_Move requeued = refl

-- The table of the code allows exactly the four moves: a claim, a success, a final failure and a
-- retry.
pub can_transition_to_iff : (s t : Status) → (can_transition_to s t ≡ true) ↔ Move s t
can_transition_to_iff s t = (Move-of_test s t, test_of_Move)

-- A status that no move leaves.
abbrev pub IsTerminal : Status → Type 0
IsTerminal s = (s ≡ succeeded) ⊎ (s ≡ failed)

pub terminal_stuck : (s t : Status) → IsTerminal s → can_transition_to s t ≡ false
unfolding can_transition_to contains_status valid_next_statuses status_eq
terminal_stuck s t (inl e) = rw e
terminal_stuck s t (inr e) = rw e

-- A transition succeeds exactly along a move, and changes the status and the time of the update.
pub transition_to_iff :
    (req : CurrencyRateUpdateRequest) (next : Status) (now : ℤ) (r : CurrencyRateUpdateRequest)
    → (transition_to req next now ≡ ok r)
      ↔ (Move req.status next × (r ≡ record req { status = next; updated_at = now }))
transition_to_iff req next now r = (
  λ h. unfold transition_to in (Move-of_test req.status next (ground arith), ground arith),
  λ h. unfold transition_to in rw (test_of_Move h.0, h.1),
)
