-- ===== src/Partners/Refines.antt =====
-- The partners service implements the diagram of its life cycle.
use mathlib.Core.Path.{subst}
use himate_system.Base.{
  ◌≡◌, ap, ◌∙◌, ◌⊎◌, inl, inr, Bool, true, false, Bool-cases, Option, none, some, List, [], ◌∷◌,
  ◌++◌, find, find-append_miss, find-concat_self, find-update_where, find-update_other, select,
  update_where, Text, text_eq, text_eq_iff, text_eq_refl,
}
use himate_system.Partners.{
  Lifecycle, prospect, Partner, Change, Registry, has_partner_id, changes_of,
}
use himate_system.Partners.Diagram.{Trail}
use himate_system.Partners.Written.{Written}

abbrev pub state_of : Option Partner → Option Lifecycle
state_of none = none
state_of (some p) = some p.lifecycle

-- Where a partner is in its life.
abbrev pub lifecycle_of : Text → Registry → Option Lifecycle
lifecycle_of id s = state_of (find (has_partner_id id) s.partners)

abbrev place : Option Partner → Option (Lifecycle × Bool)
place none = none
place (some p) = some (p.lifecycle, p.test_partner)

-- The abstract state of a partner: where it is in the diagram, with its mark of a test partner, and the changes that
-- led there.
abbrev pub place_of : Text → Registry → Option (Lifecycle × Bool)
place_of id s = place (find (has_partner_id id) s.partners)

abbrev pub log_of : Text → Registry → List Change
log_of id s = select (changes_of id) s.history

-- The changes that the history of a partner has got form a trail from its old to its new place.
abbrev pub Refines : Text → Registry → Registry → Type 0
Refines id s s' =
    (cs : List Change) × Trail (place_of id s) cs (place_of id s')
    × (log_of id s' ≡ log_of id s ++ cs)

not_other : (a b c : Text) → text_eq a b ≡ true → text_eq b c ≡ false → text_eq a c ≡ false
not_other a b c same other = rw ((text_eq_iff a b).0 same) other

-- A row that is written shows in what is found of its own partner, and of no other.
found-written :
    (id : Text) (p : Partner) (f : Partner → Partner) (s s' : Registry)
    → find (has_partner_id p.id) s.partners ≡ some p
    → ((x : Partner) → (f x).id ≡ x.id)
    → s'.partners ≡ update_where (has_partner_id p.id) f s.partners
    → ((p.id ≡ id)
        × (find (has_partner_id id) s.partners ≡ some p)
        × (find (has_partner_id id) s'.partners ≡ some (f p)))
      ⊎ ((text_eq p.id id ≡ false)
          × (find (has_partner_id id) s'.partners ≡ find (has_partner_id id) s.partners))
found-written id p f s s' found same_id rows = elim (Bool-cases (text_eq p.id id)) [
  | inl own ↦
      let same : p.id ≡ id = (text_eq_iff p.id id).0 own in
      let after : find (has_partner_id p.id) s'.partners ≡ some (f p) = rw rows (
        find-update_where (has_partner_id p.id) f s.partners p
          (λ x. ap (λ i. text_eq i p.id) (same_id x)) found) in
      inl (
        same,
        subst (λ i. find (has_partner_id i) s.partners ≡ some p) same found,
        subst (λ i. find (has_partner_id i) s'.partners ≡ some (f p)) same after,
      )
  | inr other ↦ inr (
    other,
    rw rows (
        find-update_other (has_partner_id id) (has_partner_id p.id) f s.partners
          (λ x. ap (λ i. text_eq i id) (same_id x)) (λ x own. not_other x.id p.id id own other)),
  )
]

pub lifecycle_of-written :
    (id : Text) (p : Partner) (f : Partner → Partner) (s s' : Registry)
    → find (has_partner_id p.id) s.partners ≡ some p
    → ((x : Partner) → (f x).id ≡ x.id)
    → s'.partners ≡ update_where (has_partner_id p.id) f s.partners
    → ((p.id ≡ id)
        × (lifecycle_of id s ≡ some p.lifecycle)
        × (lifecycle_of id s' ≡ some (f p).lifecycle))
      ⊎ ((text_eq p.id id ≡ false) × (lifecycle_of id s' ≡ lifecycle_of id s))
lifecycle_of-written id p f s s' found same_id rows =
    elim (found-written id p f s s' found same_id rows) [
      | inl (own, before, after) ↦ inl (own, ap state_of before, ap state_of after)
      | inr (other, still) ↦ inr (other, ap state_of still)
    ]

found-created :
    (id : Text) (p : Partner) (s s' : Registry)
    → find (has_partner_id p.id) s.partners ≡ none
    → s'.partners ≡ s.partners ++ (p ∷ [])
    → ((find (has_partner_id id) s.partners ≡ none)
        × (find (has_partner_id id) s'.partners ≡ some p))
      ⊎ (find (has_partner_id id) s'.partners ≡ find (has_partner_id id) s.partners)
found-created id p s s' absent rows = elim (Bool-cases (text_eq p.id id)) [
  | inl own ↦
      let named : p.id ≡ id = (text_eq_iff p.id id).0 own in
      let after : find (has_partner_id p.id) s'.partners ≡ some p =
        rw rows (find-concat_self (has_partner_id p.id) s.partners p absent (text_eq_refl p.id)) in
      inl (
        subst (λ i. find (has_partner_id i) s.partners ≡ none) named absent,
        subst (λ i. find (has_partner_id i) s'.partners ≡ some p) named after,
      )
  | inr other ↦ inr (rw rows (find-append_miss (has_partner_id id) s.partners p other))
]

pub lifecycle_of-created :
    (id : Text) (p : Partner) (s s' : Registry)
    → p.lifecycle ≡ prospect
    → find (has_partner_id p.id) s.partners ≡ none
    → s'.partners ≡ s.partners ++ (p ∷ [])
    → ((lifecycle_of id s ≡ none) × (lifecycle_of id s' ≡ some prospect))
      ⊎ (lifecycle_of id s' ≡ lifecycle_of id s)
lifecycle_of-created id p s s' new absent rows = elim (found-created id p s s' absent rows) [
  | inl (before, after) ↦ inl (ap state_of before, ap state_of after ∙ ap some new)
  | inr still ↦ inr (ap state_of still)
]
