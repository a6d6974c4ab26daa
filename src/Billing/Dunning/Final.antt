-- ===== src/Billing/Dunning/Final.antt =====
-- services/cmd/billing/dunning.go, runDunningCycle: the states that end the dunning of an invoice, and the number of
-- its charges.
use mathlib.Core.Path.{subst}
use himate_system.Base.{
  ℕ, ◌≤◌, ◌≡◌, refl, sym, ◌∙◌, ap, arith, inl, inr, true, false, ◌||◌, All, All-find, find,
  find-passes, some, ok, ◌⊎◌, Text, codes, text_eq, text_eq_iff, Unicode,
}
use himate_system.Payments.{Money}
use himate_system.Billing.{BillingInvoice, invoice_id_is}
use himate_system.Billing.Settlement.{dunning_max_attempts}
use himate_system.Billing.Dunning.{DunningStore, Services}
use himate_system.Billing.Dunning.Steps.{dunning_state_is}
use himate_system.Billing.Dunning.Cycle.{run_dunning_cycle, dun_row, is_expired, purged_on}
use himate_system.Billing.Dunning.Keeps.{Rules}
use himate_system.Billing.Dunning.Keeps.Cycle.{ChargeRules}
use himate_system.Billing.Dunning.Keeps.Archive.{run_dunning_cycle-All}

-- The invoice `id`, if it is there, is in this state.
abbrev pub EndedAs : {m : Money} → Text → Text → BillingInvoice m → Type 0
EndedAs id state i = i.id ≡ id → i.dunning_state ≡ state

-- The states after which the cycle leaves an invoice alone.
abbrev pub IsFinal : Text → Type 0
IsFinal state = (state ≡ codes "PURGED") ⊎ (state ≡ codes "RECOVERED")

-- They fail every test that lets a write of the state pass.
IsFinal-tests :
    (state : Text)
    → IsFinal state
    → ((text_eq state (codes "SUSPENDED")
          || text_eq state (codes "PURGED")
          || text_eq state (codes "RECOVERED"))
        ≡ true)
      × ((text_eq state (codes "PURGED") || text_eq state (codes "RECOVERED")) ≡ true)
      × (text_eq state (codes "SUSPENDED") ≡ false)
unfolding text_eq
IsFinal-tests state (inl purged) = rw purged (refl, refl, refl)
IsFinal-tests state (inr recovered) = rw recovered (refl, refl, refl)

IsFinal-behind :
    (state : Text)
    → IsFinal state
    → (text_eq state (codes "PAST_DUE") || text_eq state (codes "SUSPENDED")) ≡ false
unfolding text_eq
IsFinal-behind state (inl purged) = rw purged refl
IsFinal-behind state (inr recovered) = rw recovered refl

IsFinal-recovered :
    (state : Text)
    → IsFinal state
    → text_eq state (codes "PURGED") ≡ false
    → codes "RECOVERED" ≡ state
unfolding text_eq
IsFinal-recovered state (inl purged) h = let bad = (rw purged at h) in cc
IsFinal-recovered state (inr recovered) h = sym recovered

module _ {m : Money} (id state : Text) (final : IsFinal state) where
  abbrev EndedAs-Rules : Rules (EndedAs {m = m} id state)
  EndedAs-Rules = record {
    allowed = λ day. Unit {0};
    past_due = λ i open_state e same. cc (
      ap
          (λ t.
            text_eq t (codes "SUSPENDED")
            || text_eq t (codes "PURGED")
            || text_eq t (codes "RECOVERED"))
          (e same),
      (IsFinal-tests state final).0,
    );
    previous = λ i lifecycle e. e;
    suspended = λ read i at lifecycle same open_state p fit e mine. cc (
      ap (λ t. text_eq t (codes "PURGED") || text_eq t (codes "RECOVERED")) (p (sym same ∙ mine)),
      (IsFinal-tests state final).1,
    );
    recovered = λ i open_state e same.
        IsFinal-recovered state final
          (subst (λ t. text_eq t (codes "PURGED") ≡ false) (e same) open_state);
  }

  EndedAs-ChargeRules : ChargeRules (EndedAs {m = m} id state)
  EndedAs-ChargeRules = record {
    attempted = λ i attempt failed c bound e same.
        rw
          (subst
            (λ t.
              (text_eq t (codes "SUSPENDED")
                || text_eq t (codes "PURGED")
                || text_eq t (codes "RECOVERED"))
              ≡ true)
            (sym (e same)) (IsFinal-tests state final).0)
          (e same);
    charged = λ i c e. e;
    pending = λ i status e. e;
  }

  -- An expired row is suspended, so it is not this one.
  expired_elsewhere :
      (at now : ℕ) (x : BillingInvoice m)
      → is_expired at x ≡ true
      → EndedAs id state x
      → (i : BillingInvoice m) → invoice_id_is x.id i ≡ true
      → EndedAs id state i
      → EndedAs id state (purged_on now i)
  expired_elsewhere at now x expired e i same p mine =
      let suspended : text_eq x.dunning_state (codes "SUSPENDED") ≡ true =
        ground (arith, expired) in
      cc (
        ap (λ t. text_eq t (codes "SUSPENDED")) (e (sym ((text_eq_iff i.id x.id).0 same) ∙ mine)),
        (IsFinal-tests state final).2,
      )

  -- A paid invoice whose dunning has ended is neither behind nor over its cure window.
  not_behind :
      (x : BillingInvoice m)
      → x.dunning_state ≡ state
      → (dunning_state_is (codes "PAST_DUE") x || dunning_state_is (codes "SUSPENDED") x) ≡ false
  not_behind x ended = rw ended (IsFinal-behind state final)

  module _ ⦃u : Unicode⦄ (services : Services m) where
    ended_row :
        (now at : ℕ) (x : BillingInvoice m) (t : DunningStore m)
        → x.dunning_state ≡ state
        → x.status ≡ codes "PAID"
        → dun_row services now at x t ≡ (ok tt, t)
    unfolding dun_row
    ended_row now at x t ended paid =
        rw ((text_eq_iff x.status (codes "PAID")).1 paid, not_behind x ended) refl

    not_expired :
        (at : ℕ) (x : BillingInvoice m) → x.dunning_state ≡ state → is_expired at x ≡ false
    not_expired at x ended =
        let open_state : text_eq x.dunning_state (codes "SUSPENDED") ≡ false =
          rw ended (IsFinal-tests state final).2 in
        rw open_state refl

    -- A paid invoice whose dunning ended, by the recovery of its payment or by the purge of its partner's account, stays
    -- as it ended through every cycle, also one that fails midway; the body of the cycle for it leaves whatever
    -- store it runs on wholly unchanged, so it recovers, suspends, charges and notifies no one again; and the
    -- invoice is not among those to be purged.
    pub run_dunning_cycle-EndedAs :
        (now at : ℕ) (s t : DunningStore m) (x : BillingInvoice m)
        → All (EndedAs id state) s.invoices
        → find (invoice_id_is id) s.invoices ≡ some x
        → x.status ≡ codes "PAID"
        → All (EndedAs id state) (run_dunning_cycle services now at s).1.invoices
          × (dun_row services now at x t ≡ (ok tt, t))
          × (is_expired at x ≡ false)
    run_dunning_cycle-EndedAs now at s t x h found paid =
        let mine : x.id ≡ id = (text_eq_iff x.id id).0 (find-passes _ s.invoices x found) in
        let ended = All-find (EndedAs id state) (invoice_id_is id) s.invoices h found mine in
        (
          run_dunning_cycle-All (EndedAs id state) services EndedAs-Rules EndedAs-ChargeRules now at
              s tt tt (expired_elsewhere at now) h,
          ended_row now at x t ended paid,
          not_expired at x ended,
        )

-- No invoice is charged more often than dunningMaxAttempts allows.
abbrev pub FewAttempts : {m : Money} → BillingInvoice m → Type 0
FewAttempts i = i.collection_attempts ≤ dunning_max_attempts

module _ {m : Money} where
  abbrev pub FewAttempts-Rules : Rules (FewAttempts {m = m})
  FewAttempts-Rules = record {
    allowed = λ day. Unit {0};
    past_due = λ i open_state h. h;
    previous = λ i lifecycle h. h;
    suspended = λ read i at lifecycle same open_state p fit h. h;
    recovered = λ i open_state h. h;
  }

  pub FewAttempts-ChargeRules : ChargeRules (FewAttempts {m = m})
  FewAttempts-ChargeRules = record {
    attempted = λ i attempt failed c bound h. omega arith;
    charged = λ i c h. h;
    pending = λ i status h. h;
  }
