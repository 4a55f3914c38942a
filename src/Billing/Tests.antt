-- ===== src/Billing/Tests.antt =====
-- Three titles and five people through src/billing.rs.
use den_atlas.Prelude.{
  ℕ, ◌≡◌, refl, Bool, true, false, List, [], ◌∷◌, Option, none, some, ◌==◌, ◌&&◌, if◌then◌else◌,
}
use den_atlas.Prelude.Results.{ok}
use den_atlas.Billing.{at, below, Billing, Role, of, build_billing}
use den_atlas.Billing.Positions.{of-build_billing}

abbrev role : ℕ → ℕ → Role
role order person = record { order = order; person = person; character = [] }

-- The second title is a series; the third has no credits.
abbrev credits : ℕ × ℕ → Option (List Role)
credits (kind, id) =
    if kind == 0 && id == 7
    then some (role 3 100 ∷ role 1 200 ∷ role 0 100 ∷ role 2 999 ∷ [])
    else if kind == 1 && id == 7
    then some (role 4 300 ∷ [])
    else none

abbrev people : List ℕ
people = 200 ∷ 100 ∷ 4294967295 ∷ 300 ∷ 100 ∷ []

abbrev billing : Billing
billing = record {
  starts = 0 ∷ 3 ∷ 4 ∷ 4 ∷ [];
  billed = (0, 1) ∷ (1, 0) ∷ (4, 0) ∷ (3, 4) ∷ [];
  on_tmdb = true ∷ true ∷ false ∷ true ∷ true ∷ [];
}

build_three : build_billing 4294967295 credits (7 ∷ 4294967303 ∷ 9 ∷ []) people ≡ ok billing
unfolding build_billing den_atlas.Prelude.Perms.sort den_atlas.Prelude.Map.lookup
    den_atlas.Prelude.Map.insert den_atlas.Prelude.ℕ_discrete
build_three = refl

of_below : of billing 0 3 ≡ some below
unfolding of
of_below = refl

of_unbilled : of billing 2 1 ≡ none
unfolding of
of_unbilled = refl

of_unknown : of billing 0 2 ≡ none
unfolding of
of_unknown = refl

of-build_billing_example : of billing 0 4 ≡ some (at 0)
unfolding den_atlas.Billing.roles_of
of-build_billing_example =
    of-build_billing 4294967295 credits (7 ∷ 4294967303 ∷ 9 ∷ []) people billing 0 7 4 build_three
      refl
