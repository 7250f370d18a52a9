-- ===== src/Lib.antt =====
-- A model of the echopoint runner, the program that executes flows of API-test steps, with theorems on
-- the parts that decide what runs, on which inputs, and what is reported.
--
-- The program. A flow is a list of nodes and a list of edges between them (pkg/flow, pkg/edge).
-- pkg/engine builds a graph from it and runs it in two phases: on_success nodes as their
-- predecessors end, then always nodes, the cleanup. A node reads the outputs of earlier nodes and the
-- flow inputs by dotted references. internal/runtime runs a job and sends its progress events to the
-- control plane in numbered batches. Before a flow runs, pkg/flow checks its references and branch
-- targets, and pkg/engine walks over the flows that its module nodes refer to.
--
-- The files.
--   Prelude     numbers, lists, texts, and the functions of Go's strings and strconv in use
--   Value       pkg/node/template_resolver.go: LookupPath, walkPath, sliceIndex
--   Refs        pkg/engine/engine.go: parseDataRef, resolveDataRef, lookupOutput, validateInputs,
--               assembleInputs; pkg/engine/skipped.go: collectMissingInputs; pkg/node/output_view.go
--   Engine      Graph: NewFlowEngine of pkg/engine/engine.go. State, Skip, Record and Schedule:
--               pkg/engine/execution.go and pkg/engine/skipped.go, from executeNodes down.
--               A Go method is the function of the same name in snake case; its receiver's graph is
--               the argument `g`, executionState and phaseScheduler together are `State`.
--   Validation  pkg/flow/validation.go, the checks of ParseFromJSONWithOptions in pkg/flow/flow.go
--   Modules     pkg/engine/module_cycle_validation.go, and ExecuteModule of pkg/engine/engine.go
--   Budget      pkg/node/response_budget.go
--   Calls       pkg/httpcall/recorder.go: Limiter and Groups; Recorder: Start and Finish; Template:
--               PathTemplate of pkg/httpcall/template.go
--   Reporter    internal/runtime/event_reporter.go
--   FlowDsl     the lines of checks: pkg/flowdsl/expect.go, and checkLine of pkg/flowdsl/decompile.go
--   Checks      pkg/operators/registry.go; Evaluate: pkg/node/assertion.go and
--               pkg/node/assertion_eval.go; Pass: applyAssertionsAndOutputs of
--               pkg/engine/execution.go
--   Webhook     pkg/node/webhook_expectations.go: assignRequests; Judge and Evaluate:
--               evaluateExpectations; Listener: listenForExpectations, whose polls before the
--               timeout are a list; Execute: executeExpectations
--
-- Concurrency. A node runs in a goroutine of its own on a snapshot of the outputs, and the
-- scheduler alone writes the state, so a run is fixed by which node in flight ends next: the
-- functions `pick` choose it, and theorems hold for all of them. In the reporter a mutex makes each
-- critical section one step; the events that other goroutines append during a request are an
-- argument.
--
-- Bounds and fuel. Each loop of executeNodes runs on fuel of one more than the number of nodes.
-- That is enough because each round but the last completes a node: the runs that end by the loops'
-- own tests are described without fuel in Engine/Schedule/Phases/Ends. Counts are integers, as a Go map
-- entry may fall below zero. A Flush runs over the list of its exchanges with the control plane,
-- and has no result while an answer is awaited. The search of upstreamOutputs has fuel for each
-- edge, and the walk over modules for each flow that the resolver knows; more is never used.
-- PathTemplate rewrites expressions with fuel for each character, and each round drops some.
--
-- Parameters. What a node's executor returns, the middleware around it included; what an extractor
-- finds in a response; floats, the patterns of regexp, and the %v text of a list or map; the JSON
-- length of an event; what the control plane answers; the decoding of a flow definition and the
-- resolver of module flows; the times of a recorded HTTP call, the host of its URL, and upper case
-- above ASCII; the polls of a webhook wait and the readings of its clock. The weighted semaphore of
-- golang.org/x/sync is modelled as its package describes it, with a queue that is served in order.
--
-- Not modelled: timestamps, log lines, observer calls, texts of error messages, the JSON decoding
-- of flows, requests and streams, extractors, and the transport. A Go map keyed by node pointers is
-- keyed by a number that stands for the pointer.
pub mod Prelude
pub mod Value
pub mod Refs
pub mod Engine
pub mod Validation
pub mod Modules
pub mod Budget
pub mod Calls
pub mod Reporter
pub mod FlowDsl
pub mod Checks
pub mod Webhook
