-- ===== src/Http/Middleware/TraceId.antt =====
-- internal/api/http/middleware.go: which inbound identifiers are trusted.
use plata_test_task.Prelude.{
  Text, text_eq_iff, byte_len, ◌≤◌, ◌≡◌, ◌≢◌, ◌↔◌, refl, true, All, [], ◌∷◌, arith,
}
use plata_test_task.Http.Middleware.{printable, valid_request_id, max_request_id_len}

-- A text of 1 to 100 bytes, all printable ASCII.
pub record IsTraceId (id : Text) : Type 0 where
  pub given : id ≢ []
  pub short : byte_len id ≤ max_request_id_len
  pub plain : All (λ c. (0x20 ≤ c) × (c ≤ 0x7e)) id

printable_iff : (id : Text) → (printable id ≡ true) ↔ All (λ c. (0x20 ≤ c) × (c ≤ 0x7e)) id
unfolding printable
printable_iff [] = (λ h. tt, λ h. refl)
printable_iff (c ∷ s) = ground (arith, printable_iff s)

-- An inbound identifier is kept exactly when it has 1 to 100 bytes and all its characters are
-- printable ASCII.
pub valid_request_id_iff : (id : Text) → (valid_request_id id ≡ true) ↔ IsTraceId id
unfolding valid_request_id
valid_request_id_iff id = (
  λ h. record {
    given = ground (arith, text_eq_iff id []);
    short = ground arith;
    plain = (printable_iff id).0 (ground arith);
  },
  λ h. ground (arith, text_eq_iff id [], printable_iff id, h.given, h.short, h.plain),
)
