-- ===== src/Refs/Tests.antt =====
-- References at small inputs.
use echopoint_runner.Prelude.{
  ◌≡◌, refl, inl, ◌⊎◌, ◌↔◌, List, [], ◌∷◌, Option, none, some, if◌then◌else◌,
}
use echopoint_runner.Prelude.Text.{Text, codes, text_eq}
use echopoint_runner.Prelude.Strings.{lookup}
use echopoint_runner.Value.{Value, str, arr, obj, nil, cons, end, field, lookup_path, has_path_root}
use echopoint_runner.Value.Owner.{Owner, lookup_path-Owner, has_path_root-lookup_path}
use echopoint_runner.Refs.{
  OutputView, Outputs, lookup_output, validate_inputs, assemble_inputs, collect_missing_inputs,
}
use echopoint_runner.Refs.Inputs.{
  IsPresent, assemble_inputs-IsPresent, validate_inputs-collect_missing_inputs,
}

abbrev account : Value
account = obj (field (codes "id") (str (codes "a1")) end)

abbrev accounts : Value
accounts = arr (cons account nil)

abbrev login : Outputs
login = (codes "accounts", accounts) ∷ []

abbrev launch : Outputs
launch = (codes "account", account) ∷ []

-- The step `login` has run, and the flow was launched with `account`.
abbrev view : OutputView
view id =
    if text_eq id (codes "login") then some login else if text_eq id [] then some launch else none

abbrev refs : List Text
refs = codes "login.accounts.0.id" ∷ codes "account.id" ∷ []

walked : lookup_output view (codes "login") (codes "accounts.0.id") ≡ some (str (codes "a1"))
unfolding lookup_output lookup_path lookup text_eq
walked = refl

refs_accepted : validate_inputs refs view ≡ none
unfolding validate_inputs lookup_path lookup text_eq has_path_root
refs_accepted = refl

missing_step : collect_missing_inputs (codes "logout.id" ∷ refs) view ≡ codes "logout.id" ∷ []
unfolding collect_missing_inputs lookup_path lookup text_eq has_path_root
missing_step = refl

assemble_inputs-IsPresent_example :
    IsPresent view (assemble_inputs refs view) (codes "login.accounts.0.id")
assemble_inputs-IsPresent_example =
    assemble_inputs-IsPresent refs view (codes "login.accounts.0.id") refs_accepted (inl refl)

abbrev key_of_launch : Text → Option Value
key_of_launch key = if text_eq key (codes "account") then some account else none

lookup_path-Owner_example :
    (key_of_launch (codes "account.id") ≡ some (str (codes "a1")))
    ⊎ ((key_of_launch (codes "account.id") ≡ none)
        × Owner (codes "account.id") key_of_launch 10 (str (codes "a1")))
unfolding lookup_path text_eq
lookup_path-Owner_example =
    lookup_path-Owner (codes "account.id") key_of_launch (str (codes "a1")) refl

has_path_root-lookup_path_example : lookup_path (codes "user.id") key_of_launch ≡ none
unfolding has_path_root text_eq
has_path_root-lookup_path_example = has_path_root-lookup_path (codes "user.id") key_of_launch refl

validate_inputs-collect_missing_inputs_example :
    (validate_inputs (codes "logout.id" ∷ refs) view ≡ none)
    ↔ (collect_missing_inputs (codes "logout.id" ∷ refs) view ≡ [])
validate_inputs-collect_missing_inputs_example =
    validate_inputs-collect_missing_inputs (codes "logout.id" ∷ refs) view
