-- ===== src/MainRedGate/Outcome.antt =====
-- The outcome of a reading of main-red-gate/main_red_gate.py: a value, or the exception that ends it.

-- `expired` is HoldExpired, `incomplete` is HistoryIncomplete, and `unreadable` any other exception.
pub data Outcome (A : Type 0) : Type 0 where
  returned : A → Outcome A
  expired incomplete unreadable : Outcome A

module _ {A B : Type 0} where
  abbrev pub and_then : Outcome A → (A → Outcome B) → Outcome B
  and_then (returned a) f = f a
  and_then expired f = expired
  and_then incomplete f = incomplete
  and_then unreadable f = unreadable
