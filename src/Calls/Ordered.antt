-- ===== src/Calls/Ordered.antt =====
-- The order and the fields of the groups of pkg/httpcall/recorder.go, described without its loops.
use Prim.Native.Nat.{◌/◌}
use mathlib.Core.List.{append-nil, append_assoc}
use echopoint_runner.Calls.Gathered.{append_all, gathered}
use echopoint_runner.Calls.{
  Call, HttpCallGroup, and_bytes, append_call, new_group, insert_call, sort_calls,
}
use echopoint_runner.Prelude.Strings.{is_blank}
use echopoint_runner.Prelude.Text.{Text}
use echopoint_runner.Prelude.{
  ℕ, ◌+◌, ◌-◌, ◌≤◌, Bool, true, false, ◌==◌, List, [], ◌∷◌, ◌++◌, map, Option, none, some,
  filter_by, leb, length, length-append, if◌then◌else◌, All, ◌≡◌, refl, sym, ap, ◌∙◌, inl, inr,
  arith, Bool-cases,
}

-- Each call starts no later than those behind it.
abbrev pub IsByStart : List Call → Type 0
IsByStart [] = Unit
IsByStart (c ∷ cs) = All (λ d. c.started_at ≤ d.started_at) cs × IsByStart cs

abbrev pub started_when : ℕ → Call → Bool
started_when t c = c.started_at == t

-- The same calls by start, those of one start in the order in which they stood.
pub record IsStableOrder (calls ordered : List Call) : Type 0 where
  pub by_start : IsByStart ordered
  pub same : (t : ℕ) → filter_by (started_when t) ordered ≡ filter_by (started_when t) calls

All-later :
    (b c : ℕ) (cs : List Call)
    → b ≤ c
    → All (λ d. c ≤ d.started_at) cs
    → All (λ d. b ≤ d.started_at) cs
All-later b c [] le h = tt
All-later b c (d ∷ cs) le (now, later) = (omega arith, All-later b c cs le later)

insert_call-All :
    (b : ℕ) (c : Call) (ds : List Call)
    → b ≤ c.started_at
    → All (λ d. b ≤ d.started_at) ds
    → All (λ d. b ≤ d.started_at) (insert_call c ds)
unfolding insert_call
insert_call-All b c [] le h = (le, tt)
insert_call-All b c (d ∷ ds) le (now, later) = elim (Bool-cases (leb c.started_at d.started_at)) [
  | inl first ↦ rw first (le, (now, later))
  | inr behind ↦ rw behind (now, insert_call-All b c ds le later)
]

insert_call-IsByStart : (c : Call) (ds : List Call) → IsByStart ds → IsByStart (insert_call c ds)
unfolding insert_call
insert_call-IsByStart c [] h = (tt, tt)
insert_call-IsByStart c (d ∷ ds) (now, later) = elim (Bool-cases (leb c.started_at d.started_at)) [
  | inl first ↦
      let le : c.started_at ≤ d.started_at = ground arith in
      rw first ((le, All-later c.started_at d.started_at ds le now), (now, later))
  | inr behind ↦
      let le : d.started_at ≤ c.started_at = ground arith in
      rw behind (insert_call-All d.started_at c ds le now, insert_call-IsByStart c ds later)
]

-- A call passes only calls of other starts.
insert_call-filter_by :
    (t : ℕ) (c : Call) (ds : List Call)
    → filter_by (started_when t) (insert_call c ds) ≡ filter_by (started_when t) (c ∷ ds)
unfolding insert_call
insert_call-filter_by t c [] = refl
insert_call-filter_by t c (d ∷ ds) = elim (Bool-cases (leb c.started_at d.started_at)) [
  | inl first ↦ rw first refl
  | inr behind ↦ rw behind (
      let rest = insert_call-filter_by t c ds in
      elim (Bool-cases (d.started_at == t)) [
        | inl here ↦
            let other : (c.started_at == t) ≡ false = ground arith in
            rw (here, other) (ap (λ l. d ∷ l) (rest ∙ rw other refl))
        | inr away ↦ rw away rest
      ])
]

pub sort_calls-IsStableOrder : (calls : List Call) → IsStableOrder calls (sort_calls calls)
unfolding sort_calls
sort_calls-IsStableOrder [] = record { by_start = tt; same = λ t. refl }
sort_calls-IsStableOrder (c ∷ cs) =
    let rest = sort_calls-IsStableOrder cs in
    record {
      by_start = insert_call-IsByStart c (sort_calls cs) rest.by_start;
      same = λ t.
          insert_call-filter_by t c (sort_calls cs)
          ∙ ap (λ l. if c.started_at == t then c ∷ l else l) (rest.same t);
    }

-- The transport errors with the places of their calls, counted from a place.
abbrev pub errors_from : ℕ → List Call → List (ℕ × Text)
errors_from i [] = []
errors_from i (c ∷ cs) =
    let rest = errors_from (i + 1) cs in
    if is_blank c.transport_error then rest else (i, c.transport_error) ∷ rest

abbrev pub with_size : Option ℕ → List ℕ → List ℕ
with_size none rest = rest
with_size (some n) rest = n ∷ rest

abbrev pub sizes_of : List Call → List ℕ
sizes_of [] = []
sizes_of (c ∷ cs) = with_size c.response_bytes (sizes_of cs)

abbrev pub offset : ℕ → Call → ℕ
offset begun c = (c.started_at - begun) / 1000000

-- The group of the calls of a key, with its fields call by call; no group without a call.
abbrev pub described : List Call → List HttpCallGroup
described [] = []
described (c ∷ cs) =
    record {
      key = c.key;
      started_at = c.started_at;
      offsets_ms = map (offset c.started_at) (c ∷ cs);
      durations_ms = map (λ d. d.duration_ms) (c ∷ cs);
      status_codes = map (λ d. d.status_code) (c ∷ cs);
      transport_errors = errors_from 0 (c ∷ cs);
      response_bytes = sizes_of (c ∷ cs);
    }
    ∷ []

abbrev grown : HttpCallGroup → List Call → HttpCallGroup
grown g cs = record {
  key = g.key;
  started_at = g.started_at;
  offsets_ms = g.offsets_ms ++ map (offset g.started_at) cs;
  durations_ms = g.durations_ms ++ map (λ d. d.duration_ms) cs;
  status_codes = g.status_codes ++ map (λ d. d.status_code) cs;
  transport_errors = g.transport_errors ++ errors_from (length g.offsets_ms) cs;
  response_bytes = g.response_bytes ++ sizes_of cs;
}

same_group :
    (g h : HttpCallGroup)
    → g.key ≡ h.key
    → g.started_at ≡ h.started_at
    → g.offsets_ms ≡ h.offsets_ms
    → g.durations_ms ≡ h.durations_ms
    → g.status_codes ≡ h.status_codes
    → g.transport_errors ≡ h.transport_errors
    → g.response_bytes ≡ h.response_bytes
    → g ≡ h
same_group g h k b o d s t r = λ i. record {
  key = k i;
  started_at = b i;
  offsets_ms = o i;
  durations_ms = d i;
  status_codes = s i;
  transport_errors = t i;
  response_bytes = r i;
}

and_bytes-append :
    (sizes : List ℕ) (o : Option ℕ) (rest : List ℕ)
    → and_bytes sizes o ++ rest ≡ sizes ++ with_size o rest
and_bytes-append sizes none rest = refl
and_bytes-append sizes (some n) rest = append_assoc sizes (n ∷ []) rest

errors_from-step :
    (errors rest : List (ℕ × Text)) (i : ℕ) (blank : Bool) (text : Text)
    → (if blank then errors else errors ++ (i, text) ∷ []) ++ rest
      ≡ errors ++ (if blank then rest else (i, text) ∷ rest)
errors_from-step errors rest i true text = refl
errors_from-step errors rest i false text = append_assoc errors ((i, text) ∷ []) rest

append_all-grown : (cs : List Call) (g : HttpCallGroup) → append_all g cs ≡ grown g cs
unfolding append_call
append_all-grown [] g =
    same_group g (grown g []) refl refl (sym (append-nil g.offsets_ms))
      (sym (append-nil g.durations_ms)) (sym (append-nil g.status_codes))
      (sym (append-nil g.transport_errors)) (sym (append-nil g.response_bytes))
append_all-grown (c ∷ cs) g =
    append_all-grown cs (append_call g c)
    ∙ same_group (grown (append_call g c) cs) (grown g (c ∷ cs)) refl refl
        (append_assoc g.offsets_ms (offset g.started_at c ∷ []) _)
        (append_assoc g.durations_ms (c.duration_ms ∷ []) _)
        (append_assoc g.status_codes (c.status_code ∷ []) _)
        (ap (λ n. (append_call g c).transport_errors ++ errors_from n cs)
            (length-append g.offsets_ms (offset g.started_at c ∷ []))
          ∙ errors_from-step g.transport_errors (errors_from (length g.offsets_ms + 1) cs)
              (length g.offsets_ms) (is_blank c.transport_error) c.transport_error)
        (and_bytes-append g.response_bytes c.response_bytes (sizes_of cs))

pub gathered-described : (cs : List Call) → gathered cs ≡ described cs
gathered-described [] = refl
gathered-described (c ∷ cs) = ap (λ g. g ∷ []) (append_all-grown (c ∷ cs) (new_group c))
