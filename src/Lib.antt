-- ===== src/Lib.antt =====
-- reconciler-fuzzer: it runs a Kubernetes controller (the target) against a test API server through a
-- fault-injecting proxy, records every version of the objects it touches, judges the run by generic
-- checks (G1 to G7), and shrinks a failing sequence of ops to a small one. This library models the parts
-- of it that decide: what the proxy does to a request, what the history answers, what a legal sequence
-- is, how it shrinks, and when a check fails.
--
-- Which file models which part:
--   Base and its children: Booleans, lists, maps and signed numbers that the parts share. Base/Action is
--     the method of a state that may fail, with rules for what each of its steps keeps.
--   Clock, Json: instants as nanoseconds after the zero time, and unstructured objects.
--   Proxy/Request: internal/proxy/request.go (parsePath, verb); Paths has the paths of the API.
--   Proxy/Fault: internal/proxy/fault.go. One function for each method of Proxy and injectedFault, from
--     the state to the state; Steps makes runs of them, and Sound, Serving, Retired and Holds are about
--     such runs.
--   Observe, Observe/Store: internal/observe/store.go, with Record, Exclude and each query; Index, Repeats,
--     Live and Managed are about its contents after any writes.
--   Run/Sequence, Run/Sequence/Validate: internal/run/sequence.go (the ops, Validate); Fixtures and Legal
--     are about what a sequence that passes has.
--   Run/Sequence/Crs: internal/run/sequence.go (checkCRs); Allowed is about what it accepts.
--   Run/Settle: internal/run/settle.go (wait, heldOpen), with Readiness (state, ready); Answers and Ends
--     are about what a wait has seen when it answers.
--   Run/Shrink: internal/run/shrink.go (Shrink, shrinkPass, weaken, reproducing, without).
--   Run/Runner: internal/run/runner.go. Engine is internal/run/checks.go, what the checks read of a run;
--     Waits has the settle waits, the checkpoints and the restarts; Ops the ops, and Ops/Fixtures those on
--     fixtures; Apply the loop over the sequence; Down runSequence with its teardown, and Down/Notes the
--     notes. Core and Judged are about what any run keeps.
--   Run/Teardown: internal/run/teardown.go; Once is about what Stop undoes.
--   Run/Merge: internal/run/merge.go (MergePatch).
--   Invariant: internal/invariant/invariant.go (Input and its queries).
--   Invariant/Window, Running, Recovery: internal/invariant/window.go, running.go and recovery.go.
--   Invariant/ErrorLoop: internal/invariant/g6.go. Invariant/Quiet: g1.go and g2.go.
--   Invariant/State, Attribution: internal/invariant/state.go and attribution.go.
--   Invariant/Deletion: internal/invariant/deletion.go and g3.go, with Clean (CleanDeletion, leftBy).
--   Invariant/Convergence: internal/invariant/g4.go. Invariant/Healing: g7.go.
--   Invariant/Restart: internal/invariant/g5.go (changesBetween, convergedAround), with Spread (spread) and
--     Reach (spares, with reached and touches of attribution.go).
--   Generate: internal/generate/generate.go (state, legal, advance), with Checkpointed (checkpointed) and
--     Faulted, internal/generate/faults.go (eligibleStarts, faulted). Checkpointed/Judged is about the
--     settle waits.
--   Cluster/Collector: internal/cluster/collector.go (collectible), with Sweep (sweep and each call it sends)
--     and Loop (run and notify); Gone is about collectible, and Sweep's children about what is deleted.
--   Target/Path: internal/target/path.go (Remove); Removed is about what it leaves.
--   Witness: concrete runs.
--
-- How they interact: the proxy's log of requests (Proxy/Request) and the store's versions are the input of
-- the checks (Invariant), with the ops of the sequence, the checkpoints and the windows that the proxy
-- reports of its faults. A settle wait reads the proxy's holds, the launcher and the store, and its answers
-- are the checkpoints. Shrink uses Validate and replays of the whole run. The Runner applies the ops of
-- a sequence by Sequence, Fault and Merge, waits as Settle does, and hands what it recorded to the checks
-- at each checkpoint. The garbage collector works beside it on the test API server. A drawn
-- sequence reaches the Runner once Checkpointed and Faulted have put waits and a fault into it.
--
-- How the code is written here: a method that takes a lock is one step from the state to the state.
-- The Runner's live run, with the Checker and ExpiredWait, and the API server under the collector are
-- functions of the calls made so far, so that they may answer the same call differently. A target that is
-- loaded has timeouts above 0.
-- The reading of time.Now, the replay of a sequence, the expiry of a context, path.Match, the seeded
-- generator, REST mapping, label selectors, the group of an apiVersion, an object's metadata.name and
-- the target's Ready predicate are arguments of the definitions that use them. A Go map is an
-- association list; the checks sort what they read of one. Sums of instants are unbounded.
--
-- Fuel: `shrink` gets any fuel above the weight of the failing sequence, which each pass that goes on
-- lowers. The inner loop of `weaken` gets more than what the op carries on the axis, which each
-- halving lowers. `wait` gets more than the last instant at which it may go on, which each sleep comes
-- nearer to, and `spread` more than the 20 turns in which it quotes all that it may. The loop of
-- `shrinkPass` runs once for each op that is left from its position on.
--
-- Not modelled: HTTP, informers, JSON and YAML decoding, the processes and the test cluster, which are
-- I/O; the text of messages and reports; the comparison of states in G5, declared properties and the
-- explanation of an expired wait; the draws of generation, with the values from a CRD's schema; the
-- reading of target.yaml. Of the Runner, contexts and the reading of the target's log are left out.
pub mod Target
pub mod Base
pub mod Cluster
pub mod Clock
pub mod Json
pub mod Proxy
pub mod Observe
pub mod Run
pub mod Invariant
pub mod Generate
pub mod Witness
