-- ===== src/Receiver/Queue.antt =====
-- `EnqueueDelivery` of internal/db/webhook_deliveries.sql.go, with the constraints that migration
-- 00001 puts on the table. A row that breaks one is refused before a conflict is looked for.
use orkano.Prelude.{
  ℕ, ◌≡◌, Text, text_eq, List, [], ◌∷◌, ◌++◌, Bool, true, false, not, ◌&&◌, ◌||◌, leb,
  if◌then◌else◌, Result, ok, err, any_of, arith,
}

-- `EnqueueDeliveryParams`, and a row as far as the receiver writes it.
pub record Delivery : Type 0 where
  pub delivery_id : Text
  pub repo : Text
  pub event_type : Text

pub data DbError : Type 0 where
  unavailable check_violation : DbError

abbrev pub same_id : Delivery → Delivery → Bool
same_id d e = text_eq d.delivery_id e.delivery_id

-- The queue has a row with the id of `d`.
abbrev pub holds : Delivery → List Delivery → Bool
holds d queue = any_of (same_id d) queue

pub holds-append :
    (d e : Delivery) (rows : List Delivery)
    → holds d (rows ++ e ∷ []) ≡ (holds d rows || same_id d e)
holds-append d e [] = ground arith
holds-append d e (r ∷ rows) = ground (arith, holds-append d e rows)

module _ (char_length : Text → ℕ) where
  -- The CHECK constraints.
  abbrev pub in_bounds : Delivery → Bool
  in_bounds d =
      leb (char_length d.delivery_id) 72
      && leb (char_length d.repo) 200
      && leb (char_length d.event_type) 50

  -- The number of rows written and the table after it; `fails` is any failure outside the table.
  unfoldable pub enqueue_delivery :
      Bool → Delivery → List Delivery → Result DbError (ℕ × List Delivery)
  enqueue_delivery fails d queue =
      if fails
      then err unavailable
      else if not (in_bounds d)
      then err check_violation
      else if holds d queue
      then ok (0, queue)
      else ok (1, queue ++ d ∷ [])

  -- The table's constraints: every row is in bounds, and no two have one id.
  abbrev pub IsTable : List Delivery → Type 0
  IsTable [] = Unit
  IsTable (d ∷ rows) = (in_bounds d ≡ true) × (holds d rows ≡ false) × IsTable rows
