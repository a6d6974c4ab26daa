-- ===== src/Partners/Slug.antt =====
-- services/cmd/partners/main.go, slugify and partnerTechnicalSlug.
use himate_system.Base.{
  ℕ, ◌==◌, leb, Bool, false, not, ◌&&◌, ◌||◌, [], ◌∷◌, ◌++◌, if◌then◌else◌, Text, codes, is_empty,
  Unicode, to_lower, trim_space,
}

abbrev pub is_slug_rune : ℕ → Bool
is_slug_rune c = (leb b'a' c && leb c b'z') || (leb b'0' c && leb c b'9')

-- `nonSlug.ReplaceAllString(s,"-")`: each run of other runes becomes one dash.
unfoldable pub dash_runs : Text → Bool → Text
dash_runs [] in_run = []
dash_runs (c ∷ s) in_run =
    let rest = dash_runs s (not (is_slug_rune c)) in
    if is_slug_rune c then c ∷ rest else if in_run then rest else b'-' ∷ rest

-- `strings.Trim(s,"-")`
unfoldable pub drop_dashes : Text → Text
drop_dashes [] = []
drop_dashes (c ∷ s) = let rest = drop_dashes s in if c == b'-' then rest else c ∷ s

unfoldable pub drop_last_dashes : Text → Text
drop_last_dashes [] = []
drop_last_dashes (c ∷ s) =
    let rest = drop_last_dashes s in if is_empty rest && c == b'-' then [] else c ∷ rest

abbrev pub dashed : Text → Text
dashed s = drop_last_dashes (drop_dashes (dash_runs s false))

abbrev pub or_word : Text → Text → Text
or_word word s = if is_empty s then word else s

abbrev pub slugify : ⦃u : Unicode⦄ → Text → Text
slugify v = or_word (codes "custom") (dashed (to_lower (trim_space v)))

-- `strings.TrimPrefix(s,"ptr_")`
abbrev pub without_ptr : Text → Text
without_ptr (a ∷ b ∷ c ∷ d ∷ rest) =
    if a == b'p' && b == b't' && c == b'r' && d == b'_' then rest else a ∷ b ∷ c ∷ d ∷ rest
without_ptr short = short

unfoldable pub partner_technical_slug : ⦃u : Unicode⦄ → Text → Text → Text
partner_technical_slug name id =
    slugify name
    ++ (b'-' ∷ or_word (codes "partner") (dashed (without_ptr (to_lower (trim_space id)))))
