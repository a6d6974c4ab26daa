-- ===== src/Automation/Outbox/Laws.antt =====
-- The outbox holds an event once, hands it to one publisher at a time, and never takes a published
-- event back.
use mathlib.Core.Path.{subst, subst₂}
use himate_system.Base.{
  ap, ℕ, Option, none, ◌+◌, ◌≤◌, ◌≡◌, refl, ◌⊎◌, inl, inr, true, false, some, Option-cases, List,
  [], ◌∷◌, arith, ltb, Bool-cases, find, find-concat_self, All, ok, Text, is_empty, text_eq_iff,
  trim_space, ℤ, Pointwise, update_where-Pointwise, ◌/◌, ◌*◌, All-every, map,
}
use himate_system.Automation.Picking.{mem, picked, update_picked, returned}
use himate_system.Automation.Picking.Laws.{
  KeyedById, picked-eligible, picked_disjoint, returned-mem,
}
use himate_system.Automation.Outbox.{
  OutboxEvent, OutboxRow, Outbox, published, processing, has_key, row_of, insert_new, enqueue_tx,
  claimable, claim_outbox, claim_limit, claim_lease, leased, in_process, mark_outbox_published,
  publish, fail_outbox, returned_to_queue, pending, expired, millisecond, retry_after,
}

has_key_self : (r : OutboxRow) → has_key r.producer_service r.event_key r ≡ true
has_key_self r =
    ground (
      arith,
      text_eq_iff r.producer_service r.producer_service,
      text_eq_iff r.event_key r.event_key,
    )

-- The row that holds the key after an insertion.
find-insert_new :
    (r : OutboxRow) (o : Outbox)
    → (x : OutboxRow) × (find (has_key r.producer_service r.event_key) (insert_new r o).rows
        ≡ some x)
unfolding insert_new
find-insert_new r o = elim (Option-cases (find (has_key r.producer_service r.event_key) o.rows)) [
  | inl fresh ↦ (
    r,
    rw fresh
        (find-concat_self (has_key r.producer_service r.event_key) o.rows r fresh (has_key_self r)),
  )
  | inr (x, found) ↦ (x, rw found found)
]

insert_new_found :
    (r x : OutboxRow) (o : Outbox)
    → find (has_key r.producer_service r.event_key) o.rows ≡ some x
    → insert_new r o ≡ o
unfolding insert_new
insert_new_found r x o h = rw h

insert_new-twice :
    (r s : OutboxRow) (o : Outbox)
    → r.producer_service ≡ s.producer_service
    → r.event_key ≡ s.event_key
    → insert_new s (insert_new r o) ≡ insert_new r o
insert_new-twice r s o ep ek =
    let (x, found) = find-insert_new r o in
    insert_new_found s x (insert_new r o)
      (subst₂ (λ a b. find (has_key a b) (insert_new r o).rows ≡ some x) ep ek found)

enqueue_tx-eq-ok :
    (now : ℕ) (e : OutboxEvent) (o o' : Outbox)
    → enqueue_tx now e o ≡ ok o'
    → (is_empty (trim_space e.producer_service) ≡ false)
      × (is_empty (trim_space e.event_key) ≡ false)
      × (insert_new (row_of o.next_id now e) o ≡ o')
unfolding enqueue_tx
enqueue_tx-eq-ok now e o o' h = (ground arith, ground arith, ground arith)

-- Enqueuing an event whose producer and key are already there, whatever else it carries and
-- whenever, leaves the outbox as the first call left it: a retried transaction adds nothing.
pub enqueue_tx_twice :
    (now later : ℕ) (e e' : OutboxEvent) (o o' : Outbox)
    → trim_space e.producer_service ≡ trim_space e'.producer_service
    → trim_space e.event_key ≡ trim_space e'.event_key
    → is_empty (trim_space e'.event_type) ≡ false
    → enqueue_tx now e o ≡ ok o'
    → enqueue_tx later e' o' ≡ ok o'
unfolding enqueue_tx
enqueue_tx_twice now later e e' o o' ep ek et h =
    let (p, k, same) = enqueue_tx-eq-ok now e o o' h in
    let np : is_empty (trim_space e'.producer_service) ≡ false = rw (← ep) p in
    let nk : is_empty (trim_space e'.event_key) ≡ false = rw (← ek) k in
    let r' = row_of o'.next_id later e' in
    rw (np, nk, et)
      (ap ok (
        subst (λ z. insert_new r' z ≡ z) same
          (insert_new-twice (row_of o.next_id now e) r' o ep ek)))

-- What any of the operations may do to one row at the time `now`: nothing, lease it from now on if it is
-- pending or its lease ran out before now, publish it or return it to the queue if it is being
-- processed.
pub data RowStep (now : ℕ) (r s : OutboxRow) : Type 0 where
  keep : s ≡ r → RowStep now r s
  lease :
      (length : ℕ)
      → (r.status ≡ pending)
        ⊎ ((r.status ≡ processing)
            × ((until : ℕ) × (r.lease_until ≡ some until) × (ltb until now ≡ true)))
      → r.available_at ≤ now
      → s ≡ record r {
        status = processing;
        attempts = r.attempts + 1;
        lease_until = some (now + length);
      }
      → RowStep now r s
  done :
      r.status ≡ processing
      → s ≡ record r {
        status = published;
        published_at = some now;
        lease_until = none;
        last_error = [];
      }
      → RowStep now r s
  retry :
      (message : Text) (wait : ℕ)
      → r.status ≡ processing
      → s ≡ record r {
        status = pending;
        lease_until = none;
        last_error = trim_space message;
        available_at = now + wait;
      }
      → RowStep now r s

-- A row that is published stays as it is.
RowStep-published : (now : ℕ) (r s : OutboxRow) → RowStep now r s → r.status ≡ published → s ≡ r
RowStep-published now r s (keep e) h = e
RowStep-published now r s (lease length (inl p) _ e) h = cc
RowStep-published now r s (lease length (inr p) _ e) h = cc (p.0)
RowStep-published now r s (done p e) h = cc
RowStep-published now r s (retry message wait p e) h = cc

expired-some :
    (now : ℕ) (o : Option ℕ)
    → expired now o ≡ true
    → (until : ℕ) × (o ≡ some until) × (ltb until now ≡ true)
expired-some now none h = cc
expired-some now (some until) h = (until, refl, h)

claimable-lease :
    (producer : Text) (now : ℕ) (r : OutboxRow)
    → claimable producer now r ≡ true
    → (r.status ≡ pending)
      ⊎ ((r.status ≡ processing)
          × ((until : ℕ) × (r.lease_until ≡ some until) × (ltb until now ≡ true)))
claimable-lease producer now r h =
    let split : (r.status ≡ pending)
        ⊎ ((r.status ≡ processing) × (expired now r.lease_until ≡ true)) =
      ground arith in
    elim split [
      | inl waiting ↦ inl waiting
      | inr (held, late) ↦ inr (held, expired-some now r.lease_until late)
    ]

claimable-available :
    (producer : Text) (now : ℕ) (r : OutboxRow)
    → claimable producer now r ≡ true
    → r.available_at ≤ now
claimable-available producer now r h = ground arith

in_process-processing : (id : ℕ) (r : OutboxRow) → in_process id r ≡ true → r.status ≡ processing
in_process-processing id r h = ground arith

claimed-RowStep :
    (producer : Text) (now leased_for : ℕ) (ids : List ℕ) (xs : List OutboxRow)
    → All (λ r. mem r.id ids ≡ true → claimable producer now r ≡ true) xs
    → All (λ r. mem r.id ids ≡ true → RowStep now r (leased now leased_for r)) xs
claimed-RowStep producer now leased_for ids [] h = tt
claimed-RowStep producer now leased_for ids (r ∷ xs) h = (
  (λ m.
      lease (leased_for / millisecond * millisecond) (claimable-lease producer now r (h.0 m))
        (claimable-available producer now r (h.0 m)) refl),
  claimed-RowStep producer now leased_for ids xs h.1,
)

abbrev pub OutboxKeyed : Outbox → Type 0
OutboxKeyed o = KeyedById (λ (r : OutboxRow). r.available_at) (λ r. r.id) o.rows

abbrev claimed_ids : ℕ → Text → ℤ → Outbox → List ℕ
claimed_ids now producer limit o =
    picked (λ (r : OutboxRow). r.available_at) (λ r. r.id) (claimable (trim_space producer) now)
      (claim_limit limit) o.rows

claim_outbox-eq-ok :
    (now : ℕ) (producer : Text) (limit leased_for : ℤ) (o o' : Outbox) (got : List OutboxRow)
    → claim_outbox now producer limit leased_for o ≡ ok (got, o')
    → (returned
          (λ (r : OutboxRow). r.available_at)
          (λ r. r.id)
          (claimable (trim_space producer) now)
          (claim_limit limit)
          (leased now (claim_lease leased_for))
          o.rows
        ≡ got)
      × (update_picked
            (λ (r : OutboxRow). r.available_at)
            (λ r. r.id)
            (claimable (trim_space producer) now)
            (claim_limit limit)
            (leased now (claim_lease leased_for))
            o.rows
          ≡ o'.rows)
unfolding claim_outbox
claim_outbox-eq-ok now producer limit leased_for o o' got h = (ground arith, ground arith)

-- A claim takes every row of the table by a legal step, and adds or drops none.
pub claim_outbox-RowStep :
    (now : ℕ) (producer : Text) (limit leased_for : ℤ) (o o' : Outbox) (got : List OutboxRow)
    → OutboxKeyed o
    → claim_outbox now producer limit leased_for o ≡ ok (got, o')
    → Pointwise (RowStep now) o.rows o'.rows
unfolding update_picked
claim_outbox-RowStep now producer limit leased_for o o' got keyed h =
    let ids = claimed_ids now producer limit o in
    rw (← (claim_outbox-eq-ok now producer limit leased_for o o' got h).1) (
      update_where-Pointwise (RowStep now) (λ r. mem r.id ids) (leased now (claim_lease leased_for))
        o.rows (λ r. keep refl)
        (claimed-RowStep (trim_space producer) now (claim_lease leased_for) ids o.rows (
          picked-eligible (λ (r : OutboxRow). r.available_at) (λ r. r.id)
            (claimable (trim_space producer) now) (claim_limit limit) o.rows keyed)))

-- Marking a row published changes the table by legal steps only: a row that is not being processed, or
-- has another id, is kept.
pub mark_outbox_published-RowStep :
    (now id : ℕ) (o : Outbox)
    → Pointwise (RowStep now) o.rows (mark_outbox_published now id o).1.rows
unfolding mark_outbox_published
mark_outbox_published-RowStep now id o =
    update_where-Pointwise (RowStep now) (in_process id) (publish now) o.rows (λ r. keep refl)
      (All-every _ o.rows (λ r h. done (in_process-processing id r h) refl))

-- Failing a row returns it to the queue if it is being processed, and keeps every other row.
pub fail_outbox-RowStep :
    (now id : ℕ) (message : Text) (after : ℤ) (o : Outbox)
    → Pointwise (RowStep now) o.rows (fail_outbox now id message after o).rows
unfolding fail_outbox
fail_outbox-RowStep now id message after o =
    update_where-Pointwise (RowStep now) (in_process id) (returned_to_queue now message after)
      o.rows (λ r. keep refl)
      (All-every _ o.rows (λ r h.
        retry message (retry_after after / millisecond * millisecond) (in_process-processing id r h)
          refl))

unexpired :
    (producer : Text) (now later length : ℕ) (r : OutboxRow)
    → later ≤ now + length / millisecond * millisecond
    → claimable producer later (leased now length r) ≡ false
unexpired producer now later length r h = ground arith

-- A row that one claim returned is not returned by a second claim of any producer that comes
-- before the lease has run out.
pub claim_outbox_exclusive :
    (now later : ℕ) (producer other : Text) (limit limit' leased_for leased_for' : ℤ)
    (o o' o'' : Outbox) (got got' : List OutboxRow) (k : ℕ)
    → later ≤ now + claim_lease leased_for / millisecond * millisecond
    → claim_outbox now producer limit leased_for o ≡ ok (got, o')
    → claim_outbox later other limit' leased_for' o' ≡ ok (got', o'')
    → mem k (map (λ (r : OutboxRow). r.id) got) ≡ true
    → mem k (map (λ (r : OutboxRow). r.id) got') ≡ false
claim_outbox_exclusive now later producer other limit limit' leased_for leased_for' o o' o'' got
      got' k soon h h' m =
    let (rows, table) = claim_outbox-eq-ok now producer limit leased_for o o' got h in
    let (rows', table') = claim_outbox-eq-ok later other limit' leased_for' o' o'' got' h' in
    let p = claimable (trim_space producer) now in
    let p' = claimable (trim_space other) later in
    let first =
      returned-mem (λ (r : OutboxRow). r.available_at) (λ r. r.id) k p (claim_limit limit)
        (leased now (claim_lease leased_for)) o.rows (λ r. refl) (rw (← rows) at m) in
    let apart =
      picked_disjoint (λ (r : OutboxRow). r.available_at) (λ r. r.id) k p p' (claim_limit limit)
        (claim_limit limit') (leased now (claim_lease leased_for)) o.rows
        (λ r. unexpired (trim_space other) now later (claim_lease leased_for) r soon) first in
    elim (Bool-cases (mem k (map (λ (r : OutboxRow). r.id) got'))) [
      | inl again ↦
          let second_pick =
            returned-mem (λ (r : OutboxRow). r.available_at) (λ r. r.id) k p' (claim_limit limit')
              (leased later (claim_lease leased_for')) o'.rows (λ r. refl)
              (rw (← rows') at again) in
          cc (second_pick, rw table at apart)
      | inr free ↦ free
    ]
