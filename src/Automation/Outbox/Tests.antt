-- ===== src/Automation/Outbox/Tests.antt =====
-- Runs of the outbox on concrete input.
use himate_system.Base.{
  ◌≡◌, refl, none, [], ◌∷◌, pos, negsuc, ok, false, arith, map, codes, is_empty, trim_space, ◌*◌,
}
use himate_system.Base.Strings.Ascii.{evaluate_texts}
use himate_system.Automation.Picking.{mem, insert_row, sort_rows, picked, update_picked, returned}
use himate_system.Automation.Outbox.{
  OutboxEvent, OutboxRow, Outbox, insert_new, enqueue_tx, claim_outbox, leased, row_of, second,
}
use himate_system.Automation.Outbox.Steps.{Steps, claiming, perform, perform-RowStep}
use himate_system.Automation.Outbox.Laws.{enqueue_tx_twice, claim_outbox_exclusive}

abbrev issued : OutboxEvent
issued = record {
  producer_service = codes "tenant-finance ";
  event_key = codes "invoice:1";
  event_type = codes "invoice.ready";
  event_version = pos 0;
  partner_id = codes "p1";
  module_key = codes "tenant-finance";
  correlation_id = [];
  causation_id = [];
  subject_type = codes "invoice";
  subject_id = codes "1";
  payload = [];
  occurred_at = none;
  available_at = none;
}

abbrev empty : Outbox
empty = record { next_id = 1; rows = [] }

abbrev one : Outbox
one = record { next_id = 2; rows = row_of 1 1000 issued ∷ [] }

enqueue_issued : enqueue_tx 1000 issued empty ≡ ok one
unfolding enqueue_tx insert_new evaluate_texts
enqueue_issued = refl

abbrev taken : OutboxRow
taken = leased 2000 (60 * second) (row_of 1 1000 issued)

abbrev leased_out : Outbox
leased_out = record { next_id = 2; rows = taken ∷ [] }

claim_one :
    claim_outbox 2000 (codes "tenant-finance") (negsuc 0) (pos 0) one ≡ ok (taken ∷ [], leased_out)
unfolding claim_outbox update_picked returned picked sort_rows insert_row evaluate_texts
claim_one = refl

-- The lease is still running.
claim_again :
    claim_outbox 3000 (codes "tenant-finance") (pos 5) (pos 0) leased_out ≡ ok ([], leased_out)
unfolding claim_outbox update_picked returned picked sort_rows insert_row evaluate_texts
claim_again = refl

issued_type : is_empty (trim_space issued.event_type) ≡ false
unfolding evaluate_texts
issued_type = refl

enqueue_tx_twice_example : enqueue_tx 9000 issued one ≡ ok one
enqueue_tx_twice_example =
    enqueue_tx_twice 1000 9000 issued issued empty one refl refl issued_type enqueue_issued

claim_outbox_exclusive_example : mem 1 (map (λ (r : OutboxRow). r.id) []) ≡ false
claim_outbox_exclusive_example =
    claim_outbox_exclusive 2000 3000 (codes "tenant-finance") (codes "tenant-finance") (negsuc 0)
      (pos 5) (pos 0) (pos 0) one leased_out leased_out (taken ∷ []) [] 1 (omega arith) claim_one
      claim_again refl

perform-RowStep_example :
    Steps 2000 one (perform 2000 (claiming (codes "tenant-finance") (negsuc 0) (pos 0)) one)
perform-RowStep_example =
    perform-RowStep 2000 (claiming (codes "tenant-finance") (negsuc 0) (pos 0)) one (refl, tt)
