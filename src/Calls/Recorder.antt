-- ===== src/Calls/Recorder.antt =====
-- Start and Finish of pkg/httpcall/recorder.go, and an execution that makes calls with them. What
-- net/url finds as the host of a URL and what unicode makes upper case above ASCII are parameters.
pub mod Accounted
use Prim.Native.Nat.{◌/◌}
use echopoint_runner.Calls.Template.{path_template}
use echopoint_runner.Calls.{Limiter, reserve, GroupKey, Call}
use echopoint_runner.Prelude.Strings.{is_blank}
use echopoint_runner.Prelude.Text.{Text, codes}
use echopoint_runner.Prelude.{
  ℕ, zero, suc, ◌-◌, Bool, true, false, ◌&&◌, List, [], ◌∷◌, ◌++◌, map, Option, none, some, leb,
  ltb, ◌==◌, if◌then◌else◌,
}

pub record Net : Type 0 where
  pub host_of : Text → Text
  pub wide_upper : ℕ → ℕ

-- unicode.ToUpper
abbrev pub upper_char : Net → ℕ → ℕ
upper_char net c =
    if ltb c 0x80 then if leb b'a' c && leb c b'z' then c - 32 else c else net.wide_upper c

-- strings.ToUpper
abbrev pub to_upper : Net → Text → Text
to_upper net = map (upper_char net)

pub record CallTarget : Type 0 where
  pub node_id : Text
  pub method : Text
  pub url : Text
  pub url_template : Text

-- A started call; `collected` tells whether it has a collector.
pub record StartedCall : Type 0 where
  pub collected : Bool
  pub key : GroupKey
  pub started_at : ℕ

pub record CallOutcome : Type 0 where
  pub status_code : ℕ
  pub transport_error : Text
  pub response_bytes : Option ℕ

abbrev pub as_limiter : Option Limiter → Option (Option Limiter)
as_limiter none = none
as_limiter (some l) = some (some l)

-- limiterFrom(ctx).reserve(): without a limiter nothing is refused.
unfoldable pub reserve_in : Option Limiter → Option (Option Limiter)
unfolding reserve
reserve_in none = some none
reserve_in (some l) = as_limiter (reserve l)

unfoldable pub group_key : Net → CallTarget → GroupKey
unfolding path_template
group_key net target = record {
  node_id = target.node_id;
  method = to_upper net target.method;
  host = net.host_of target.url;
  path_template = path_template target.url_template;
}

abbrev pub started_if :
    Net → Bool → CallTarget → ℕ → Option (Option Limiter) → Option (Option Limiter × StartedCall)
started_if net collected target now none = none
started_if net collected target now (some limiter) =
    some (limiter, record { collected = collected; key = group_key net target; started_at = now })

-- Start, with the limiter and whether a collector is in the context; `none` is LimitExceededCode.
unfoldable pub start :
    Net → Option Limiter → Bool → CallTarget → ℕ → Option (Option Limiter × StartedCall)
unfolding group_key reserve_in
start net limiter collected target now = started_if net collected target now (reserve_in limiter)

-- cmp.Or(transportError, connect)
abbrev pub or_connect : Text → Text
or_connect [] = codes "connect"
or_connect (c ∷ e) = c ∷ e

-- Finish: the calls of the collector behind it
unfoldable pub finish : StartedCall → CallOutcome → ℕ → List Call → List Call
finish c outcome now calls =
    if c.collected
    then calls
      ++ record {
        key = c.key;
        started_at = c.started_at;
        duration_ms = (now - c.started_at) / 1000000;
        status_code = outcome.status_code;
        transport_error =
            if outcome.status_code == 0 then or_connect outcome.transport_error else [];
        response_bytes = outcome.response_bytes;
      }
        ∷ []
    else calls

-- An execution: its limiter and its collector, and the calls that are started and not finished.
pub record Execution : Type 0 where
  pub limiter : Option Limiter
  pub calls : List Call
  pub open_calls : List StartedCall

pub data CallEvent : Type 0 where
  starts : CallTarget → ℕ → CallEvent
  finishes : ℕ → CallOutcome → ℕ → CallEvent

abbrev pub entered : Execution → Option (Option Limiter × StartedCall) → Execution
entered x none = x
entered x (some (limiter, c)) = record x { limiter = limiter; open_calls = c ∷ x.open_calls }

abbrev pub kept_before :
    StartedCall → Option (StartedCall × List StartedCall) → Option (StartedCall × List StartedCall)
kept_before c none = none
kept_before c (some (d, ds)) = some (d, c ∷ ds)

-- The call at a position, and the others.
abbrev pub remove_at : ℕ → List StartedCall → Option (StartedCall × List StartedCall)
remove_at i [] = none
remove_at zero (c ∷ cs) = some (c, cs)
remove_at (suc i) (c ∷ cs) = kept_before c (remove_at i cs)

abbrev pub left : Execution → CallOutcome → ℕ → Option (StartedCall × List StartedCall) → Execution
left x outcome now none = x
left x outcome now (some (c, others)) = record x {
  calls = finish c outcome now x.calls;
  open_calls = others;
}

unfoldable pub call_step : Net → Execution → CallEvent → Execution
unfolding start finish
call_step net x (starts target now) = entered x (start net x.limiter true target now)
call_step net x (finishes i outcome now) = left x outcome now (remove_at i x.open_calls)

unfoldable pub call_steps : Net → Execution → List CallEvent → Execution
unfolding call_step
call_steps net x [] = x
call_steps net x (e ∷ es) = call_steps net (call_step net x e) es
