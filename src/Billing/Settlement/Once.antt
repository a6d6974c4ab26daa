-- ===== src/Billing/Settlement/Once.antt =====
-- A settlement that is sent again.
use mathlib.Core.Path.{subst}
use himate_system.Base.{
  ◌==◌, ◌≡◌, refl, ap, Bool, true, false, Bool-cases, inl, inr, some, [], ◌∷◌, ◌++◌, arith, count,
  count-append, Result, ok, err, >>=-eq-ok, text_eq_refl, Unicode,
}
use himate_system.Payments.{Money}
use himate_system.Billing.{SettlementRow, BillingStore, settles_event}
use himate_system.Billing.Settlement.{
  SettlementInput, SettlementError, SettlementReply, duplicate, FollowUp, check_settlement,
  settle_purpose, same_success, insert_settlement, settle_tx, committed, settle_checked,
  payment_settlement,
}

module _ {m : Money} (close : m.Amount → m.Amount → Bool) ⦃u : Unicode⦄ where
  abbrev Recorded : SettlementRow m → BillingStore m → Type 0
  Recorded r s = (count (settles_event r.provider_event_id) s.settlements == 0) ≡ false

  insert_settlement-Recorded :
      (r : SettlementRow m) (x : FollowUp × BillingStore m) (reply : SettlementReply)
      (s' : BillingStore m)
      → insert_settlement close r x ≡ ok (reply, s')
      → Recorded r s'
  insert_settlement-Recorded r (f, s) reply s' h =
      elim (Bool-cases (count (same_success close r) s.settlements == 0)) [
        | inr twice ↦ cc (rw twice at h)
        | inl first ↦
            let rows : s.settlements ++ (r ∷ []) ≡ s'.settlements = cc (rw first at h) in
            let last : count (settles_event r.provider_event_id) (r ∷ []) ≡ 1 =
              rw (text_eq_refl r.provider_event_id) refl in
            rw
              (
                ← rows,
                count-append (settles_event r.provider_event_id) s.settlements (r ∷ []),
                last,
              )
              (ground arith)
      ]

  settle_tx-Recorded :
      (r : SettlementRow m) (s s' : BillingStore m) (reply : SettlementReply)
      → settle_tx close r s ≡ ok (reply, s')
      → Recorded r s'
  unfolding settle_tx
  settle_tx-Recorded r s s' reply h =
      elim (Bool-cases (count (settles_event r.provider_event_id) s.settlements == 0)) [
        | inr before ↦
            let same : s ≡ s' = cc (rw before at h) in subst (λ x. Recorded r x) same before
        | inl fresh ↦
            let (x, _, inserted) =
              >>=-eq-ok (settle_purpose close r.purpose r s) _ (rw fresh at h) in
            insert_settlement-Recorded r x reply s' inserted
      ]

  settle_tx-duplicate :
      (r : SettlementRow m) (s : BillingStore m)
      → Recorded r s
      → settle_tx close r s ≡ ok (duplicate, s)
  unfolding settle_tx
  settle_tx-duplicate r s h = rw h refl

  committed-eq-ok :
      (s s' : BillingStore m) (t : Result SettlementError (SettlementReply × BillingStore m))
      (reply : SettlementReply)
      → committed close s t ≡ (ok reply, s')
      → t ≡ ok (reply, s')
  committed-eq-ok s s' (err e) reply h =
      cc (ap (λ (x : Result SettlementError SettlementReply × BillingStore m). x.0) h)
  committed-eq-ok s s' (ok (r, t)) reply h = cc

  settle_checked_twice :
      (c : Result SettlementError (SettlementRow m)) (s s' : BillingStore m)
      (reply : SettlementReply)
      → settle_checked close c s ≡ (ok reply, s')
      → settle_checked close c s' ≡ (ok duplicate, s')
  settle_checked_twice (err e) s s' reply h =
      cc (ap (λ (x : Result SettlementError SettlementReply × BillingStore m). x.0) h)
  settle_checked_twice (ok r) s s' reply h =
      let done = committed-eq-ok s s' (settle_tx close r s) reply h in
      ap (committed close s') (settle_tx-duplicate r s' (settle_tx-Recorded r s s' reply done))

  -- A settlement that was accepted and is sent again is answered as a duplicate and changes nothing.
  pub payment_settlement_twice :
      (input : SettlementInput m) (s s' : BillingStore m) (reply : SettlementReply)
      → payment_settlement close true (some input) s ≡ (ok reply, s')
      → payment_settlement close true (some input) s' ≡ (ok duplicate, s')
  unfolding payment_settlement
  payment_settlement_twice input s s' reply h =
      settle_checked_twice (check_settlement input) s s' reply h
