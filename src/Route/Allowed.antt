-- ===== src/Route/Allowed.antt =====
-- internal/route/register.go: what a row of the harness register that is taken holds.
use layup.Base.{◌≡◌, true, not, List, [], ◌∷◌, ◌++◌, is_empty, All, ◌≢◌}
use layup.Members.{In}
use layup.Text.{Text, codes}
use layup.Text.Fields.{text_fields}
use layup.Route.Register.{contains_text, is_abs}

-- The names that no session variable of a row may have: those that the session sets itself, the
-- credentials of a forge, and the socket of an agent.
abbrev pub withheld : List Text
withheld =
    codes "PATH"
    ∷ codes "LANG"
    ∷ codes "HOME"
    ∷ codes "TMPDIR"
    ∷ codes "GIT_CONFIG_NOSYSTEM"
    ∷ codes "GH_TOKEN"
    ∷ codes "GITHUB_TOKEN"
    ∷ codes "GH_ENTERPRISE_TOKEN"
    ∷ codes "GITHUB_ENTERPRISE_TOKEN"
    ∷ codes "SSH_AUTH_SOCK"
    ∷ []

-- A fixed variable is a name and a value; the name is not withheld, nor that of the credential.
abbrev pub VarFits : Text → Text → Type 0
VarFits to v =
    (name : Text) × (value : Text) × (v ≡ name ++ (b'=' ∷ value))
    × (In name withheld → ⊥)
    × (to ≢ codes "var:" ++ name)

-- What a row of the register that is taken holds.
pub record IsAllowed (f : Text → Text) : Type 0 where
  pub cap_marked :
      contains_text (codes "{cap}") (f (codes "command")) ≡ not (is_empty (f (codes "cap")))
  pub paired : is_empty (f (codes "credential")) ≡ is_empty (f (codes "credential_to"))
  pub credential :
      (name : Text) → f (codes "credential_to") ≡ codes "var:" ++ name → In name withheld → ⊥
  pub policies : All (λ p. is_abs p ≡ true) (text_fields (f (codes "policy")))
  pub vars : All (VarFits (f (codes "credential_to"))) (text_fields (f (codes "vars")))
