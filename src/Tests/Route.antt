-- ===== src/Tests/Route.antt =====
-- Runs of internal/route on small records, and the theorems about it there.
use layup.Base.{◌≡◌, refl, ◌∷◌, [], List, Bool, true, if◌then◌else◌, some, err, Result}
use layup.Text.{Text, codes, text_eq, cut_prefix, has_prefix, cut_byte}
use layup.Text.Split.{split}
use layup.Text.Numbers.{number_from, atoi}
use layup.Text.Fields.{space_length, fields_from, text_fields, cut_text}
use layup.Records.Fields.{value_in, missing}
use layup.Route.Admit.{
  negative, position_of, not_behind, choices, insert, sort, first_admitted, pair, probed_from,
  probed, model_use, admitted,
}
use layup.Route.Register.{
  refused_names, name_form, contains_text, ends_in_space, words, is_abs, check_command,
  credential_var, check_policy, variable_name, check_vars, check_harness,
}

abbrev routing : List (List Text)
routing =
    (codes "dev" ∷ codes "execution" ∷ codes "10" ∷ codes "one" ∷ codes "large" ∷ [])
    ∷ (codes "dev" ∷ codes "execution" ∷ codes "2" ∷ codes "two" ∷ codes "small" ∷ [])
    ∷ (codes "qa" ∷ codes "execution" ∷ codes "1" ∷ codes "one" ∷ codes "small" ∷ [])
    ∷ []

-- Opens all that the routes compute with.
route_run : (Text → Text → Bool) → List (List Text) → Result Text (Text × Text)
unfolding pair choices negative position_of not_behind atoi insert sort first_admitted value_in
    text_eq number_from missing cut_prefix has_prefix cut_byte split space_length fields_from
    text_fields cut_text probed_from probed model_use admitted refused_names name_form contains_text
    ends_in_space words is_abs check_command credential_var check_policy variable_name check_vars
    check_harness
route_run admit rows = err []

lowest_taken :
    pair routing (codes "dev") (codes "execution") (λ h m. true) ≡ some (codes "two", codes "small")
unfolding route_run
lowest_taken = refl

-- The position -5 is before 2.
negative_taken :
    pair
      ((codes "qa" ∷ codes "execution" ∷ codes "2" ∷ codes "one" ∷ codes "small" ∷ [])
        ∷ (codes "qa" ∷ codes "execution" ∷ codes "-5" ∷ codes "two" ∷ codes "small" ∷ [])
        ∷ [])
      (codes "qa")
      (codes "execution")
      (λ h m. true)
    ≡ some (codes "two", codes "small")
unfolding route_run
negative_taken = refl

abbrev passed_probe : List Text
passed_probe = codes "S-00000001" ∷ codes "one" ∷ codes "1.0" ∷ codes "m" ∷ codes "passed" ∷ []

-- A row of the register, by the names of its columns.
abbrev harness_row : Text → Text
harness_row name =
    if text_eq name (codes "command")
    then codes "run --limit {cap}"
    else if text_eq name (codes "cap")
    then codes "1.5"
    else if text_eq name (codes "credential")
    then codes "/secret"
    else if text_eq name (codes "credential_to")
    then codes "var:API_KEY"
    else if text_eq name (codes "policy")
    then codes "/etc/a /etc/b"
    else if text_eq name (codes "vars")
    then codes "MODE=x"
    else codes "5"
