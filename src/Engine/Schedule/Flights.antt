-- ===== src/Engine/Schedule/Flights.antt =====
-- The `ready` list and the nodes in flight of pkg/engine/execution.go, by their pointers.
use echopoint_runner.Prelude.{
  zero, suc, ◌≡◌, refl, sym, ap, ◌∙◌, inl, inr, Bool, true, false, ◌==◌, ◌||◌, List, [], ◌∷◌, ◌++◌,
  Option, none, not, any, some, In, All-In, All-of_In, All-append, Bool-cases, arith, filter_by,
  In-filter_by, &&→×,
}
use mathlib.Core.List.{append-nil}
use echopoint_runner.Prelude.Int.{ℤ, pos, negsuc}
use echopoint_runner.Engine.Graph.{Node, FlowEngine, RunWhen}
use echopoint_runner.Engine.Graph.Edges.{Apart}
use echopoint_runner.Engine.State.{
  State, Flight, ready, is_ready, is_in_flight, same_phase, zero_left,
}
use echopoint_runner.Engine.Schedule.Counts.{Free}
use echopoint_runner.Engine.Schedule.Ready.{nodes_of, Good}

-- A node is in flight if its pointer is that of a node in flight.
abbrev pub has_ptr : List Node → Node → Bool
has_ptr ms n = any (λ m. m.ptr == n.ptr) ms

pub is_in_flight-nodes_of :
    (fs : List Flight) (n : Node) → is_in_flight fs n ≡ has_ptr (nodes_of fs) n
is_in_flight-nodes_of [] n = refl
is_in_flight-nodes_of (f ∷ fs) n = ap (◌||◌ (f.node.ptr == n.ptr)) (is_in_flight-nodes_of fs n)

pub has_ptr-In : (ms : List Node) (n : Node) → In n ms → has_ptr ms n ≡ true
has_ptr-In [] n i = absurd i
has_ptr-In (m ∷ ms) n (inl e) = let same = ap (λ k. k.ptr) e in ground arith
has_ptr-In (m ∷ ms) n (inr i) = let rest = has_ptr-In ms n i in ground arith

pub has_ptr-append :
    (ms ks : List Node) (n : Node) → has_ptr ms n ≡ true → has_ptr (ms ++ ks) n ≡ true
has_ptr-append [] ks n h = absurd (ground arith)
has_ptr-append (m ∷ ms) ks n h = elim (Bool-cases (m.ptr == n.ptr)) [
  | inl same ↦ rw same
  | inr differs ↦ let rest = has_ptr-append ms ks n in ground arith
]

has_ptr-Fresh :
    (ms : List Node) (n m : Node) → has_ptr ms n ≡ false → In m ms → (m.ptr == n.ptr) ≡ false
has_ptr-Fresh [] n m h i = absurd i
has_ptr-Fresh (k ∷ ms) n m h (inl e) = let same = ap (λ x. x.ptr) e in ground arith
has_ptr-Fresh (k ∷ ms) n m h (inr i) = has_ptr-Fresh ms n m (ground arith) i

Apart-append :
    (ms ks : List Node)
    → Apart ms
    → Apart ks
    → ((m k : Node) → In m ms → In k ks → (m.ptr == k.ptr) ≡ false)
    → Apart (ms ++ ks)
Apart-append [] ks a b h = b
Apart-append (m ∷ ms) ks a b h = (
  All-append (λ k. (m.ptr == k.ptr) ≡ false) ms ks a.0
      (All-of_In (λ k. (m.ptr == k.ptr) ≡ false) ks (λ k j. h m k (inl refl) j)),
  Apart-append ms ks a.1 b (λ m' k i j. h m' k (inr i) j),
)

Apart-filter_by : (p : Node → Bool) (ms : List Node) → Apart ms → Apart (filter_by p ms)
Apart-filter_by p [] a = a
Apart-filter_by p (m ∷ ms) a = elim (Bool-cases (p m)) [
  | inl kept ↦ rw kept (
    All-of_In (λ k. (m.ptr == k.ptr) ≡ false) (filter_by p ms)
        (λ k i. All-In (λ k. (m.ptr == k.ptr) ≡ false) ms k a.0 (In-filter_by p ms k i).0),
    Apart-filter_by p ms a.1,
  )
  | inr dropped ↦ rw dropped (Apart-filter_by p ms a.1)
]

zero_left-zero : (o : Option ℤ) → zero_left o ≡ true → o ≡ some (pos 0)
zero_left-zero none h = absurd (ground arith)
zero_left-zero (some (pos zero)) h = refl
zero_left-zero (some (pos (suc n))) h = absurd (ground arith)
zero_left-zero (some (negsuc n)) h = absurd (ground arith)

-- A ready node has no open input, is of the phase, and is not in flight.
pub is_ready-parts :
    (phase : RunWhen) (s : State) (n : Node)
    → is_ready phase s n ≡ true
    → (s.remaining_inputs n.ptr ≡ some (pos 0))
      × (same_phase n.run_when phase ≡ true)
      × (is_in_flight s.in_flight n ≡ false)
is_ready-parts phase s n h =
    let (both, idle) = &&→× _ (not (is_in_flight s.in_flight n)) h in
    let (z, p) = &&→× _ (same_phase n.run_when phase) both in
    (zero_left-zero (s.remaining_inputs n.ptr) z, p, ground arith)

pub is_ready-intro :
    (phase : RunWhen) (s : State) (n : Node)
    → s.remaining_inputs n.ptr ≡ some (pos 0)
    → same_phase n.run_when phase ≡ true
    → is_in_flight s.in_flight n ≡ false
    → is_ready phase s n ≡ true
is_ready-intro phase s n none_open of_phase grounded = rw (none_open, of_phase, grounded)

module _ (g : FlowEngine) (apart : Apart g.nodes) where
  pub ready-Good :
      (phase : RunWhen) (s : State)
      → Good g s.remaining_inputs (nodes_of s.in_flight ++ [])
      → Good g s.remaining_inputs (nodes_of s.in_flight ++ ready g phase s)
  unfolding ready
  ready-Good phase s h =
      let flying = nodes_of s.in_flight in
      let rem = s.remaining_inputs in
      let h' : Good g rem flying = rw (append-nil flying) at h in
      let held = filter_by (is_ready phase s) g.nodes in
      record {
        free = All-append (Free g rem) flying held h'.free (
            All-of_In (Free g rem) held λ n i.
              let (j, r) = In-filter_by (is_ready phase s) g.nodes n i in
              (j, (is_ready-parts phase s n r).0));
        apart =
            Apart-append flying held h'.apart (Apart-filter_by (is_ready phase s) g.nodes apart)
              λ m n i j.
                let (_, r) = In-filter_by (is_ready phase s) g.nodes n j in
                let grounded = (is_ready-parts phase s n r).2 in
                has_ptr-Fresh flying n m (sym (is_in_flight-nodes_of s.in_flight n) ∙ grounded) i;
      }
