-- ===== src/Engine/Schedule/Ready.antt =====
-- The nodes in flight and the ready ones of pkg/engine/execution.go.
use echopoint_runner.Prelude.{
  ℕ, zero, suc, ◌≡◌, refl, ap, false, ◌==◌, List, [], ◌∷◌, ◌++◌, All, arith,
}
use echopoint_runner.Engine.Graph.{Node, FlowEngine}
use echopoint_runner.Engine.Graph.Edges.{WellFormed, Fresh, Apart}
use echopoint_runner.Engine.State.{Flight}
use echopoint_runner.Engine.Schedule.{take_flight}
use echopoint_runner.Engine.Schedule.Counts.{Counts, CountInv, Free, complete, complete-Free}

abbrev pub nodes_of : List Flight → List Node
nodes_of [] = []
nodes_of (f ∷ fs) = f.node ∷ nodes_of fs

pub nodes_of-append : (fs gs : List Flight) → nodes_of (fs ++ gs) ≡ nodes_of fs ++ nodes_of gs
nodes_of-append [] gs = refl
nodes_of-append (f ∷ fs) gs = ap (◌∷◌ f.node) (nodes_of-append fs gs)

All-middle :
    (P : Node → Type 0) (xs ys : List Node) (n : Node)
    → All P (xs ++ n ∷ ys)
    → P n × All P (xs ++ ys)
All-middle P [] ys n h = h
All-middle P (x ∷ xs) ys n h = let (p, rest) = All-middle P xs ys n h.1 in (p, (h.0, rest))

All-insert :
    (P : Node → Type 0) (xs ys : List Node) (n : Node)
    → P n
    → All P (xs ++ ys)
    → All P (xs ++ n ∷ ys)
All-insert P [] ys n p h = (p, h)
All-insert P (x ∷ xs) ys n p h = (h.0, All-insert P xs ys n p h.1)

apart_sym : (n m : Node) → (n.ptr == m.ptr) ≡ false → (m.ptr == n.ptr) ≡ false
apart_sym n m h = ground arith

Apart-middle :
    (xs ys : List Node) (n : Node) → Apart (xs ++ n ∷ ys) → Fresh n (xs ++ ys) × Apart (xs ++ ys)
Apart-middle [] ys n h = h
Apart-middle (x ∷ xs) ys n h =
    let (fresh, rest) = Apart-middle xs ys n h.1 in
    let (x_n, x_rest) = All-middle (λ m. (x.ptr == m.ptr) ≡ false) xs ys n h.0 in
    ((apart_sym x n x_n, fresh), (x_rest, rest))

Apart-insert :
    (xs ys : List Node) (n : Node) → Fresh n (xs ++ ys) → Apart (xs ++ ys) → Apart (xs ++ n ∷ ys)
Apart-insert [] ys n f h = (f, h)
Apart-insert (x ∷ xs) ys n f h = (
  All-insert (λ m. (x.ptr == m.ptr) ≡ false) xs ys n (apart_sym n x f.0) h.0,
  Apart-insert xs ys n f.1 h.1,
)

-- Free nodes with different pointers.
pub record Good (g : FlowEngine) (rem : Counts) (ns : List Node) : Type 0 where
  pub free : All (Free g rem) ns
  pub apart : Apart ns

module _ (g : FlowEngine) (rem : Counts) where
  pub Good-middle :
      (xs ys : List Node) (n : Node)
      → Good g rem (xs ++ n ∷ ys)
      → Free g rem n × Fresh n (xs ++ ys) × Good g rem (xs ++ ys)
  Good-middle xs ys n h =
      let (f, free) = All-middle (Free g rem) xs ys n h.free in
      let (fresh, apart) = Apart-middle xs ys n h.apart in
      (f, fresh, record { free = free; apart = apart })

  Good-insert :
      (xs ys : List Node) (n : Node)
      → Free g rem n
      → Fresh n (xs ++ ys)
      → Good g rem (xs ++ ys)
      → Good g rem (xs ++ n ∷ ys)
  Good-insert xs ys n f fresh h = record {
    free = All-insert (Free g rem) xs ys n f h.free;
    apart = Apart-insert xs ys n fresh h.apart;
  }

  take_flight-All :
      (P : Node → Type 0) (k : ℕ) (f : Flight) (fs : List Flight) (ys : List Node)
      → P f.node
      → All P (nodes_of fs ++ ys)
      → All P (nodes_of (take_flight k f fs).1 ++ (take_flight k f fs).0.node ∷ ys)
  unfolding take_flight
  take_flight-All P k f [] ys p h = (p, h)
  take_flight-All P zero f (f' ∷ fs) ys p h = All-insert P (nodes_of (f' ∷ fs)) ys f.node p h
  take_flight-All P (suc k) f (f' ∷ fs) ys p h = (p, take_flight-All P k f' fs ys h.0 h.1)

  take_flight-Apart :
      (k : ℕ) (f : Flight) (fs : List Flight) (ys : List Node)
      → Fresh f.node (nodes_of fs ++ ys)
      → Apart (nodes_of fs ++ ys)
      → Apart (nodes_of (take_flight k f fs).1 ++ (take_flight k f fs).0.node ∷ ys)
  unfolding take_flight
  take_flight-Apart k f [] ys p h = (p, h)
  take_flight-Apart zero f (f' ∷ fs) ys p h = Apart-insert (nodes_of (f' ∷ fs)) ys f.node p h
  take_flight-Apart (suc k) f (f' ∷ fs) ys p h = (
    take_flight-All (λ m. (f.node.ptr == m.ptr) ≡ false) k f' fs ys p.0 p.1,
    take_flight-Apart k f' fs ys h.0 h.1,
  )

  -- Taking a node out of flight puts it behind the others.
  pub take_flight-Good :
      (k : ℕ) (f : Flight) (fs : List Flight) (ys : List Node)
      → Good g rem (f.node ∷ nodes_of fs ++ ys)
      → Good g rem (nodes_of (take_flight k f fs).1 ++ (take_flight k f fs).0.node ∷ ys)
  take_flight-Good k f fs ys h = record {
    free = take_flight-All (Free g rem) k f fs ys h.free.0 h.free.1;
    apart = take_flight-Apart k f fs ys h.apart.0 h.apart.1;
  }

module _ (g : FlowEngine) (w : WellFormed g) (n : Node) (rem : Counts) (inv : CountInv g rem)
    (free : Free g rem n) where
  complete-All-Free :
      (ms : List Node) → Fresh n ms → All (Free g rem) ms → All (Free g (complete g n rem)) ms
  complete-All-Free [] f h = tt
  complete-All-Free (m ∷ ms) f h =
      (complete-Free g w n rem inv free m f.0 h.0, complete-All-Free ms f.1 h.1)

  pub complete-Good : (ms : List Node) → Fresh n ms → Good g rem ms → Good g (complete g n rem) ms
  complete-Good ms f h = record { free = complete-All-Free ms f h.free; apart = h.apart }
