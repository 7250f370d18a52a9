-- ===== src/Calls/Tests.antt =====
-- A limit of two calls, and three calls of two groups.
use echopoint_runner.Prelude.{
  ℕ, ◌≡◌, ◌≤◌, ◌-◌, ◌+◌, refl, inr, List, [], ◌∷◌, some, none, ◌==◌, arith,
}
use echopoint_runner.Prelude.Int.{pos, negsuc}
use echopoint_runner.Prelude.Text.{codes, Text, text_eq}
use echopoint_runner.Calls.{
  GroupKey, Call, HttpCallGroup, Limiter, reserve, groups_of, sort_calls, key_eq,
}
use echopoint_runner.Calls.Limit.{start_calls, smaller, start_calls_within, reserve_unlimited}
use echopoint_runner.Calls.Gathered.{groups_with, calls_with}
use echopoint_runner.Calls.Groups.{groups_of-described}
use echopoint_runner.Calls.Ordered.{IsStableOrder, described}
use echopoint_runner.Calls.Recorder.Accounted.{IsAccounted, call_steps-IsAccounted}
use echopoint_runner.Calls.Recorder.{
  Net, CallTarget, CallOutcome, Execution, CallEvent, starts, finishes, call_steps,
}
use echopoint_runner.Calls.Template.Rendered.{IsPath, is_mark, is_brace}
use echopoint_runner.Calls.Template.Url.{IsOrigin, path_template-shown}
use echopoint_runner.Calls.Template.{path_template}
use echopoint_runner.Prelude.Scan.Pieces.{Free-any}
use echopoint_runner.Prelude.Strings.{trim_space}

abbrev two : Limiter
two = record { limit = pos 2; started = 0 }

two_of_five : (start_calls 5 two).0 ≡ 2
unfolding reserve
two_of_five = refl

start_calls_within_example : (start_calls 5 two).0 ≡ smaller 5 (2 - 0)
start_calls_within_example = start_calls_within 5 two 2 refl one_two zero_two
  where
    one_two : 1 ≤ 2
    one_two = omega arith

    zero_two : 0 ≤ 2
    zero_two = omega arith

abbrev open_limit : Limiter
open_limit = record { limit = negsuc 0; started = 7 }

reserve_unlimited_example : reserve open_limit ≡ some (record open_limit { started = 7 + 1 })
reserve_unlimited_example = reserve_unlimited open_limit (inr (0, refl))

abbrev key : Text → GroupKey
key path = record {
  node_id = codes "n";
  method = codes "GET";
  host = codes "h";
  path_template = path;
}

abbrev call : Text → ℕ → Call
call path start = record {
  key = key path;
  started_at = start;
  duration_ms = 5;
  status_code = 200;
  transport_error = [];
  response_bytes = none;
}

abbrev calls : List Call
calls = call (codes "/a") 7000000 ∷ call (codes "/b") 1000000 ∷ call (codes "/a") 3000000 ∷ []

abbrev offsets : List HttpCallGroup → List (List ℕ)
offsets [] = []
offsets (g ∷ gs) = g.offsets_ms ∷ offsets gs

two_groups : offsets (groups_of calls) ≡ (0 ∷ []) ∷ (0 ∷ 4 ∷ []) ∷ []
unfolding groups_of key_eq text_eq sort_calls
two_groups = refl

groups_of-described_example :
    (ordered : List Call) × IsStableOrder calls ordered
    × ((j : GroupKey) → groups_with j (groups_of calls) ≡ described (calls_with j ordered))
groups_of-described_example = groups_of-described calls

template_of_variable :
    path_template (codes "{{baseUrl}}/users/{{ userId }}?expand=true") ≡ codes "/users/{userId}"
unfolding path_template
template_of_variable = refl

template_of_url :
    path_template (codes "https://api.example.com/orders/{{id?x}}#top") ≡ codes "/orders/{id?x}"
unfolding path_template
template_of_url = refl

template_of_host : path_template (codes "https://api.example.com") ≡ codes "/"
unfolding path_template
template_of_host = refl

plain-IsOrigin : IsOrigin (codes "https") (codes "api.example.com")
plain-IsOrigin = (
  Free-any is_mark (codes "https") refl,
  Free-any (λ c. b':' == c) (codes "https") refl,
  Free-any (λ c. b'/' == c) (codes "https") refl,
  Free-any is_mark (codes "api.example.com") refl,
  Free-any (λ c. b'/' == c) (codes "api.example.com") refl,
)

plain-IsPath : IsPath ((codes "orders/", codes " id ") ∷ []) (codes "/items")
plain-IsPath = (
  ((Free-any is_mark (codes "orders/") refl, Free-any is_brace (codes " id ") refl), tt),
  Free-any is_mark (codes "/items") refl,
)

trimmed_url :
    trim_space (codes "https://api.example.com/orders/{{ id }}/items?q=#{{x")
    ≡ codes "https://api.example.com/orders/{{ id }}/items?q=#{{x"
unfolding trim_space
trimmed_url = refl

path_template-shown_example :
    path_template (codes "https://api.example.com/orders/{{ id }}/items?q=#{{x")
    ≡ codes "/orders/{id}/items"
unfolding trim_space
path_template-shown_example =
    path_template-shown (codes "https") (codes "api.example.com") (codes "q=#{{x")
      ((codes "orders/", codes " id ") ∷ []) (codes "/items") plain-IsOrigin plain-IsPath
      trimmed_url

abbrev ascii_net : Net
ascii_net = record { host_of = λ url. []; wide_upper = λ c. c }

abbrev login : CallTarget
login = record {
  node_id = codes "login";
  method = codes "post";
  url = codes "https://a.b/login";
  url_template = codes "https://a.b/login";
}

abbrev silent : CallOutcome
silent = record { status_code = 0; transport_error = []; response_bytes = none }

-- Two calls are started of which the limit of one refuses the second; the first finds no server.
abbrev refused_call : List CallEvent
refused_call = starts login 0 ∷ starts login 1000000 ∷ finishes 0 silent 3000000 ∷ []

abbrev limited : Execution
limited = record {
  limiter = some (record { limit = pos 1; started = 0 });
  calls = [];
  open_calls = [];
}

limited-IsAccounted : IsAccounted 1 limited
limited-IsAccounted = record {
  limiter = record { limit = pos 1; started = 0 };
  carried = refl;
  limited = refl;
  within = omega arith;
  counted = refl;
  collected = tt;
  explained = tt;
}

call_steps-IsAccounted_example : IsAccounted 1 (call_steps ascii_net limited refused_call)
call_steps-IsAccounted_example =
    call_steps-IsAccounted ascii_net limited refused_call (omega arith) limited-IsAccounted

refused_call_recorded :
    (call_steps ascii_net limited refused_call).calls
    ≡ record {
      key = record {
        node_id = codes "login";
        method = codes "POST";
        host = [];
        path_template = codes "/login";
      };
      started_at = 0;
      duration_ms = 3;
      status_code = 0;
      transport_error = codes "connect";
      response_bytes = none;
    }
      ∷ []
unfolding call_steps
refused_call_recorded = refl
