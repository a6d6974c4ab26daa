-- ===== src/Partners/Secured.antt =====
-- The compliance archives of the partners service.
use mathlib.Core.Path.{subst}
use himate_system.Base.{
  ℕ, ◌≡◌, sym, ap, ◌∙◌, inl, inr, Bool, some, List, [], ◌∷◌, find, Text, Unicode, trim_space,
}
use himate_system.Partners.{archived, Registry, has_partner_id}
use himate_system.Partners.Serve.{Request, serve, serve_all}
use himate_system.Partners.Written.{Written, created, kept, changed, untouched}
use himate_system.Partners.Archived.{KeepsArchives, Sealed}
use himate_system.Partners.Served.{serve-Written}
use himate_system.Partners.Refines.{
  state_of, lifecycle_of, lifecycle_of-created, lifecycle_of-written,
}

-- If a partner is archived, its compliance archive is there.
abbrev pub Secured : Text → Registry → Type 0
Secured id s = lifecycle_of id s ≡ some archived → Sealed id s

Sealed-kept : (id : Text) (s s' : Registry) → KeepsArchives s s' → Sealed id s → Sealed id s'
Sealed-kept id s s' keeps (a, h) = (a, keeps (trim_space id) a h)

Written-Secured : (id : Text) (s s' : Registry) → Written s s' → Secured id s → Secured id s'
Written-Secured id s s' (untouched a b keeps) h now =
    Sealed-kept id s s' keeps (h (ap (λ ps. state_of (find (has_partner_id id) ps)) (sym a) ∙ now))
Written-Secured id s s' (created p new ordinary absent rows same keeps) h now =
    elim (lifecycle_of-created id p s s' new absent rows) [
      | inl (before, after) ↦ cc
      | inr still ↦ Sealed-kept id s s' keeps (h (sym still ∙ now))
    ]
Written-Secured id s s' (kept p f found same_id state mark rows same keeps) h now =
    elim (lifecycle_of-written id p f s s' found same_id rows) [
      | inl (own, before, after) ↦
          Sealed-kept id s s' keeps (h (before ∙ ap some (sym state) ∙ sym after ∙ now))
      | inr (other, still) ↦ Sealed-kept id s s' keeps (h (sym still ∙ now))
    ]
Written-Secured id s s' (changed p f c found same_id subject from to edge rows row keeps seal) h
      now =
    elim (lifecycle_of-written id p f s s' found same_id rows) [
      | inl (own, before, after) ↦ subst (λ i. Sealed i s') own (seal cc)
      | inr (other, still) ↦ Sealed-kept id s s' keeps (h (sym still ∙ now))
    ]

Written-KeepsArchives : (s s' : Registry) → Written s s' → KeepsArchives s s'
Written-KeepsArchives s s' (untouched a b keeps) = keeps
Written-KeepsArchives s s' (created p new ordinary absent rows same keeps) = keeps
Written-KeepsArchives s s' (kept p f found same_id state mark rows same keeps) = keeps
Written-KeepsArchives s s' (changed p f c found same_id subject from to edge rows row keeps seal) =
    keeps

module _ ⦃u : Unicode⦄ (lower : Text → Text) (known_category : Text → Bool)
    (canonical : Text → Registry → Text) (sha : Text → Text) (format_id : ℕ → Text) where
  -- If an archived partner has its compliance archive before some requests are served, it has it after them,
  -- whether it was archived before or is by one of them; and every archive that was there is unchanged.
  pub serve_all-Secured :
      (id : Text) (rs : List Request) (s : Registry)
      → Secured id s
      → let s' = serve_all lower known_category canonical sha format_id rs s in
        Secured id s' × KeepsArchives s s'
  serve_all-Secured id [] s h = (h, λ i a f. f)
  serve_all-Secured id (r ∷ rs) s h =
      let s1 = serve lower known_category canonical sha format_id r s in
      let w = serve-Written lower known_category format_id canonical sha r s in
      let (secured, keeps) = serve_all-Secured id rs s1 (Written-Secured id s s1 w h) in
      (secured, λ i a f. keeps i a (Written-KeepsArchives s s1 w i a f))
