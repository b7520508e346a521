-- ===== src/Route/Order.antt =====
-- internal/route/admit.go: the pair that is taken is the admitted one of the lowest position.
use layup.Base.{◌<◌, ◌≤◌, ◌≡◌, Bool, true, false, List, [], ◌∷◌, All}
use layup.Text.{Text}
use layup.Members.{Exists}
use layup.Route.Admit.{Choice, int_limit}

-- The position is not negative.
abbrev pub NotNegative : Choice → Type 0
NotNegative c = c.position < int_limit

-- The positions do not fall.
abbrev Ordered : List Choice → Type 0
Ordered [] = Unit
Ordered (c ∷ cs) = All (λ (d : Choice). c.position ≤ d.position) cs × Ordered cs

module _ (admit : Text → Text → Bool) where
  -- The choice is admitted, and no choice of a lower position is.
  pub record IsFirst (cs : List Choice) (c : Choice) : Type 0 where
    pub is_choice : Exists (λ (d : Choice). d ≡ c) cs
    pub taken : admit c.harness c.model ≡ true
    pub lowest : All (λ (d : Choice). d.position < c.position → admit d.harness d.model ≡ false) cs
