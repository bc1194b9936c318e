-- ===== src/Base/Outcome.antt =====
-- What a call that may raise returns: a value, or the exception.

pub data Result {ℓ} (E : Type ℓ) (A : Type ℓ) : Type ℓ where
  ok : A → Result E A
  raise : E → Result E A

abbrev pub or_else {ℓ} : {E A : Type ℓ} → A → Result E A → A
or_else d (ok a) = a
or_else d (raise e) = d
