-- ===== src/Calls.antt =====
-- pkg/httpcall/recorder.go: the limit on the HTTP calls of an execution, and the calls of a node by
-- group. Times are nanoseconds, and the parts of a URL that a call is grouped by are parameters of
-- its record.
pub mod Limit
pub mod Gathered
pub mod Position
pub mod Ordered
pub mod Groups
pub mod Template
pub mod Recorder
mod Tests
use echopoint_runner.Prelude.{
  ℕ, zero, suc, ◌+◌, ◌-◌, Bool, true, false, ◌&&◌, not, List, [], ◌∷◌, ◌++◌, Option, none, some,
  leb, ltb, ◌==◌, length, if◌then◌else◌,
}
use Prim.Native.Nat.{◌/◌}
use echopoint_runner.Prelude.Int.{ℤ, pos, negsuc}
use echopoint_runner.Prelude.Text.{Text, text_eq}
use echopoint_runner.Prelude.Strings.{is_blank}

pub record Limiter : Type 0 where
  pub limit : ℤ
  pub started : ℕ

-- reserve: `none` is LimitExceededCode.
unfoldable pub refuses : ℤ → ℕ → Bool
refuses (pos limit) started = ltb 0 limit && leb limit started
refuses (negsuc n) started = false

unfoldable pub reserve : Limiter → Option Limiter
unfolding refuses
reserve l = if refuses l.limit l.started then none else some (record l { started = l.started + 1 })

pub record GroupKey : Type 0 where
  pub node_id : Text
  pub method : Text
  pub host : Text
  pub path_template : Text

unfoldable pub key_eq : GroupKey → GroupKey → Bool
key_eq a b =
    text_eq a.node_id b.node_id
    && text_eq a.method b.method
    && text_eq a.host b.host
    && text_eq a.path_template b.path_template

-- A finished call; the empty transport error is none.
pub record Call : Type 0 where
  pub key : GroupKey
  pub started_at : ℕ
  pub duration_ms : ℕ
  pub status_code : ℕ
  pub transport_error : Text
  pub response_bytes : Option ℕ

pub record HttpCallGroup : Type 0 where
  pub key : GroupKey
  pub started_at : ℕ
  pub offsets_ms : List ℕ
  pub durations_ms : List ℕ
  pub status_codes : List ℕ
  pub transport_errors : List (ℕ × Text)
  pub response_bytes : List ℕ

abbrev pub and_bytes : List ℕ → Option ℕ → List ℕ
and_bytes sizes none = sizes
and_bytes sizes (some n) = sizes ++ n ∷ []

-- appendCall; the milliseconds are those of calls that did not start before the group.
unfoldable pub append_call : HttpCallGroup → Call → HttpCallGroup
append_call g c = record {
  key = g.key;
  started_at = g.started_at;
  offsets_ms = g.offsets_ms ++ ((c.started_at - g.started_at) / 1000000) ∷ [];
  durations_ms = g.durations_ms ++ c.duration_ms ∷ [];
  status_codes = g.status_codes ++ c.status_code ∷ [];
  transport_errors =
      if is_blank c.transport_error
      then g.transport_errors
      else g.transport_errors ++ (length g.offsets_ms, c.transport_error) ∷ [];
  response_bytes = and_bytes g.response_bytes c.response_bytes;
}

abbrev pub new_group : Call → HttpCallGroup
new_group c = record {
  key = c.key;
  started_at = c.started_at;
  offsets_ms = [];
  durations_ms = [];
  status_codes = [];
  transport_errors = [];
  response_bytes = [];
}

unfoldable pub insert_call : Call → List Call → List Call
insert_call c [] = c ∷ []
insert_call c (d ∷ ds) =
    let rest = insert_call c ds in if leb c.started_at d.started_at then c ∷ d ∷ ds else d ∷ rest

-- slices.SortStableFunc by the start
unfoldable pub sort_calls : List Call → List Call
unfolding insert_call
sort_calls [] = []
sort_calls (c ∷ cs) = insert_call c (sort_calls cs)

-- appendCall(&groups[position], call)
unfoldable pub append_at : ℕ → Call → List HttpCallGroup → List HttpCallGroup
unfolding append_call
append_at i c [] = []
append_at zero c (g ∷ gs) = append_call g c ∷ gs
append_at (suc i) c (g ∷ gs) = g ∷ append_at i c gs

abbrev pub Index : Type 0
Index = GroupKey → Option ℕ

abbrev pub enter_key : Index → GroupKey → ℕ → Index
enter_key index k i j = if key_eq k j then some i else index j

-- The body of the loop of Groups.
unfoldable pub place_call :
    Call → Option ℕ → Index → List HttpCallGroup → Index × List HttpCallGroup
unfolding append_at append_call key_eq
place_call c none index groups =
    (enter_key index c.key (length groups), groups ++ append_call (new_group c) c ∷ [])
place_call c (some i) index groups = (index, append_at i c groups)

unfoldable pub group_calls : List Call → Index → List HttpCallGroup → List HttpCallGroup
unfolding place_call
group_calls [] index groups = groups
group_calls (c ∷ cs) index groups =
    let (index', groups') = place_call c (index c.key) index groups in group_calls cs index' groups'

-- Groups
unfoldable pub groups_of : List Call → List HttpCallGroup
unfolding group_calls sort_calls
groups_of calls = group_calls (sort_calls calls) (λ _. none) []
