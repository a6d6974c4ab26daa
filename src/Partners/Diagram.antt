-- ===== src/Partners/Diagram.antt =====
-- The life cycle of a partner as a diagram, apart from the table of the code.
use mathlib.Core.Path.{subst}
use himate_system.Base.{
  ℕ, ◌==◌, ◌≡◌, ◌≢◌, refl, sym, ap, ◌⊎◌, ◌∙◌, inl, inr, Bool, true, false, Bool-cases, Option, none,
  some, List, [], ◌∷◌, ◌++◌, if◌then◌else◌, arith, All,
}
use himate_system.Partners.{
  Lifecycle, prospect, license_pending, ready_to_provision, provisioning, configuration, testing,
  ready_for_launch, live, suspended, archived, transitions, number, same_lifecycle, lifecycle_in,
  can_transition, Change,
}

-- The way to the launch.
abbrev pub onward : Lifecycle → Option Lifecycle
onward prospect = some license_pending
onward license_pending = some ready_to_provision
onward ready_to_provision = some provisioning
onward provisioning = some configuration
onward configuration = some testing
onward testing = some ready_for_launch
onward ready_for_launch = some live
onward live = none
onward suspended = none
onward archived = none

-- A partner is archived before it is provisioned, or once it is live or suspended.
abbrev pub may_end : Lifecycle → Bool
may_end prospect = true
may_end license_pending = true
may_end ready_to_provision = true
may_end live = true
may_end suspended = true
may_end _ = false

pub data Edge : Lifecycle → Lifecycle → Type 0 where
  ahead : {a b : Lifecycle} → onward a ≡ some b → Edge a b
  back : {a b : Lifecycle} → onward b ≡ some a → a ≢ live → Edge a b
  suspends : {a : Lifecycle} → a ≢ archived → Edge a suspended
  resumes : {b : Lifecycle} → Edge suspended b
  ends : {a : Lifecycle} → may_end a ≡ true → Edge a archived

-- A change of the lifecycle of a partner that is a test partner or not before (`t`) and after (`t'`): along an edge, the
-- mark staying; or the activation of a golden test partner, which gets the mark and is LIVE, from any state.
abbrev pub Move : Lifecycle → Bool → Lifecycle → Bool → Type 0
Move a t b t' = ((t' ≡ t) × Edge a b) ⊎ ((t ≡ false) × (t' ≡ true) × (b ≡ live))

-- A change of a partner that leaves its lifecycle: only a LIVE partner can get the mark by it.
abbrev pub Marked : Lifecycle → Bool → Bool → Type 0
Marked a t t' = (t' ≡ t) ⊎ ((t ≡ false) × (t' ≡ true) × (a ≡ live))

-- The changes lead from one lifecycle, with the mark of a test partner, to the other; `none` is a partner that is
-- not there yet.
pub data Trail : Option (Lifecycle × Bool) → List Change → Option (Lifecycle × Bool) → Type 0 where
  rest : {l : Option (Lifecycle × Bool)} → Trail l [] l
  enter :
      {l : Option (Lifecycle × Bool)} {cs : List Change}
      → Trail (some (prospect, false)) cs l
      → Trail none cs l
  mark :
      {l : Option (Lifecycle × Bool)} {cs : List Change} (a : Lifecycle) (t t' : Bool)
      → Marked a t t'
      → Trail (some (a, t')) cs l
      → Trail (some (a, t)) cs l
  step :
      {l : Option (Lifecycle × Bool)} {cs : List Change} (c : Change) (t t' : Bool)
      → Move c.from_state t c.to_state t'
      → Trail (some (c.to_state, t')) cs l
      → Trail (some (c.from_state, t)) (c ∷ cs) l

pub Trail-append :
    {a b c : Option (Lifecycle × Bool)} {cs ds : List Change}
    → Trail a cs b
    → Trail b ds c
    → Trail a (cs ++ ds) c
Trail-append rest t = t
Trail-append (enter u) t = enter (Trail-append u t)
Trail-append (mark a v w m u) t = mark a v w m (Trail-append u t)
Trail-append (step x v w e u) t = step x v w e (Trail-append u t)

abbrev lifecycle_at : ℕ → Lifecycle
lifecycle_at n =
    if n == 0
    then prospect
    else if n == 1
    then license_pending
    else if n == 2
    then ready_to_provision
    else if n == 3
    then provisioning
    else if n == 4
    then configuration
    else if n == 5
    then testing
    else if n == 6
    then ready_for_launch
    else if n == 7
    then live
    else if n == 8
    then suspended
    else archived

lifecycle_at-number : (l : Lifecycle) → lifecycle_at (number l) ≡ l
lifecycle_at-number prospect = refl
lifecycle_at-number license_pending = refl
lifecycle_at-number ready_to_provision = refl
lifecycle_at-number provisioning = refl
lifecycle_at-number configuration = refl
lifecycle_at-number testing = refl
lifecycle_at-number ready_for_launch = refl
lifecycle_at-number live = refl
lifecycle_at-number suspended = refl
lifecycle_at-number archived = refl

pub same_lifecycle-eq : (a b : Lifecycle) → same_lifecycle a b ≡ true → a ≡ b
same_lifecycle-eq a b h =
    let equal : number a ≡ number b = ground (arith, h) in
    sym (lifecycle_at-number a) ∙ ap lifecycle_at equal ∙ lifecycle_at-number b

lifecycle_in-All :
    (P : Lifecycle → Type 0) (b : Lifecycle) (xs : List Lifecycle)
    → All P xs
    → lifecycle_in b xs ≡ true
    → P b
lifecycle_in-All P b [] h i = cc
lifecycle_in-All P b (x ∷ xs) h i = elim (Bool-cases (same_lifecycle b x)) [
  | inl same ↦ subst P (sym (same_lifecycle-eq b x same)) h.0
  | inr other ↦ lifecycle_in-All P b xs h.1 (rw other at i)
]

transitions-Edge : (a : Lifecycle) → All (Edge a) (transitions a)
transitions-Edge prospect = (ahead refl, (suspends (λ h. cc), (ends refl, tt)))
transitions-Edge license_pending =
    (back refl (λ h. cc), (ahead refl, (suspends (λ h. cc), (ends refl, tt))))
transitions-Edge ready_to_provision =
    (back refl (λ h. cc), (ahead refl, (suspends (λ h. cc), (ends refl, tt))))
transitions-Edge provisioning = (back refl (λ h. cc), (ahead refl, (suspends (λ h. cc), tt)))
transitions-Edge configuration = (back refl (λ h. cc), (ahead refl, (suspends (λ h. cc), tt)))
transitions-Edge testing = (back refl (λ h. cc), (ahead refl, (suspends (λ h. cc), tt)))
transitions-Edge ready_for_launch = (back refl (λ h. cc), (ahead refl, (suspends (λ h. cc), tt)))
transitions-Edge live = (suspends (λ h. cc), (ends refl, tt))
transitions-Edge suspended = (
  resumes,
  (resumes, (resumes, (resumes, (resumes, (resumes, (resumes, (resumes, (resumes, tt)))))))),
)
transitions-Edge archived = tt

-- What the code permits is in the diagram.
pub can_transition-Edge :
    (a b : Lifecycle) → can_transition a b ≡ true → same_lifecycle a b ≡ false → Edge a b
unfolding can_transition
can_transition-Edge a b h other =
    lifecycle_in-All (Edge a) b (transitions a) (transitions-Edge a) (rw other at h)
