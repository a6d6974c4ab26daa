-- ===== src/Automation/Outbox/Steps.antt =====
-- Every operation of the outbox, as a step of the table.
use mathlib.Core.Path.{subst}
use himate_system.Base.{
  ℕ, ◌≡◌, refl, ap, Option, none, some, List, [], ◌∷◌, ◌++◌, find, Result, ok, err, Text, is_empty,
  ℤ, Pointwise, reject_if-eq-ok, ◌||◌,
}
use himate_system.Automation.Outbox.{
  OutboxEvent, OutboxRow, Outbox, OutboxError, event_identity_required, has_key, row_of,
  insert_unless, insert_new, enqueue_tx, claim_outbox, mark_outbox_published, fail_outbox,
}
use himate_system.Automation.Outbox.Laws.{
  RowStep, keep, OutboxKeyed, claim_outbox-RowStep, mark_outbox_published-RowStep,
  fail_outbox-RowStep,
}

pub data Operation : Type 0 where
  enqueuing : OutboxEvent → Operation
  claiming : Text → ℤ → ℤ → Operation
  publishing : ℕ → Operation
  failing : ℕ → Text → ℤ → Operation

abbrev enqueued : Result OutboxError Outbox → Outbox → Outbox
enqueued (err e) o = o
enqueued (ok o') o = o'

abbrev claimed : Result OutboxError (List OutboxRow × Outbox) → Outbox → Outbox
claimed (err e) o = o
claimed (ok (rows, o')) o = o'

-- An operation that fails leaves the outbox as it was.
abbrev pub perform : ℕ → Operation → Outbox → Outbox
perform now (enqueuing e) o = enqueued (enqueue_tx now e o) o
perform now (claiming producer limit lease) o = claimed (claim_outbox now producer limit lease o) o
perform now (publishing id) o = (mark_outbox_published now id o).1
perform now (failing id message after) o = fail_outbox now id message after o

-- The rows that were there have at that time made legal steps, and new ones follow them.
abbrev pub Steps : ℕ → Outbox → Outbox → Type 0
Steps now o o' =
    (old : List OutboxRow) × (new : List OutboxRow) × (o'.rows ≡ old ++ new)
    × Pointwise (RowStep now) o.rows old

append_nothing : (xs : List OutboxRow) → xs ≡ xs ++ []
append_nothing [] = refl
append_nothing (x ∷ xs) = ap (λ l. x ∷ l) (append_nothing xs)

all_keep : (now : ℕ) (xs : List OutboxRow) → Pointwise (RowStep now) xs xs
all_keep now [] = tt
all_keep now (x ∷ xs) = (keep refl, all_keep now xs)

stays : (now : ℕ) (o : Outbox) → Steps now o o
stays now o = (o.rows, [], append_nothing o.rows, all_keep now o.rows)

in_place : (now : ℕ) (o o' : Outbox) → Pointwise (RowStep now) o.rows o'.rows → Steps now o o'
in_place now o o' h = (o'.rows, [], append_nothing o'.rows, h)

insert_unless-Steps :
    (now : ℕ) (x : Option OutboxRow) (r : OutboxRow) (o : Outbox)
    → Steps now o (insert_unless x r o)
insert_unless-Steps now (some x) r o = stays now o
insert_unless-Steps now none r o = (o.rows, r ∷ [], refl, all_keep now o.rows)

enqueue_tx-Steps :
    (now : ℕ) (e : OutboxEvent) (o o' : Outbox) → enqueue_tx now e o ≡ ok o' → Steps now o o'
unfolding enqueue_tx insert_new
enqueue_tx-Steps now e o o' h =
    let r = row_of o.next_id now e in
    let (_, h') =
      reject_if-eq-ok (is_empty r.producer_service || is_empty r.event_key || is_empty r.event_type)
        event_identity_required _ h in
    let done : insert_unless (find (has_key r.producer_service r.event_key) o.rows) r o ≡ o' = cc in
    subst (Steps now o) done
      (insert_unless-Steps now (find (has_key r.producer_service r.event_key) o.rows) r o)

enqueued-Steps :
    (now : ℕ) (r : Result OutboxError Outbox) (o : Outbox)
    → ((o' : Outbox) → r ≡ ok o' → Steps now o o')
    → Steps now o (enqueued r o)
enqueued-Steps now (err e) o h = stays now o
enqueued-Steps now (ok o') o h = h o' refl

claimed-Steps :
    (now : ℕ) (r : Result OutboxError (List OutboxRow × Outbox)) (o : Outbox)
    → ((got : List OutboxRow) (o' : Outbox) → r ≡ ok (got, o') → Steps now o o')
    → Steps now o (claimed r o)
claimed-Steps now (err e) o h = stays now o
claimed-Steps now (ok (got, o')) o h = h got o' refl

-- Every operation on an outbox whose rows have distinct identifiers takes each row by a legal step: it keeps it, leases it
-- if it is due and either pending or under a lease that ran out before the time of the operation, or
-- publishes it or returns it to the queue if it is being processed; no row is dropped, and a new one
-- comes last.
pub perform-RowStep :
    (now : ℕ) (op : Operation) (o : Outbox) → OutboxKeyed o → Steps now o (perform now op o)
perform-RowStep now (enqueuing e) o keyed =
    enqueued-Steps now (enqueue_tx now e o) o (λ o' h. enqueue_tx-Steps now e o o' h)
perform-RowStep now (claiming producer limit lease) o keyed =
    claimed-Steps now (claim_outbox now producer limit lease o) o (λ got o' h.
      in_place now o o' (claim_outbox-RowStep now producer limit lease o o' got keyed h))
perform-RowStep now (publishing id) o keyed =
    in_place now o (mark_outbox_published now id o).1 (mark_outbox_published-RowStep now id o)
perform-RowStep now (failing id message after) o keyed =
    in_place now o (fail_outbox now id message after o) (fail_outbox-RowStep now id message after o)
