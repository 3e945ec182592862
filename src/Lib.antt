-- ===== src/Lib.antt =====
-- zeus-gslb: the DNS responder of a mesh's global endpoints. It serves the names of one zone from a
-- decision bundle, which it reads from a file or fetches from the zeus API, checks the health of the
-- local targets, and reports that health.
--
-- The parts and how they interact. The bundle (internal/bundle) is parsed, validated, kept in a store
-- and cached on disk. The DNS server (internal/dnsserver) looks names up in the bundle of the store,
-- lets the evaluator choose among a record's candidates by the health that the local checks report,
-- and lets the damper hold an answer that changes too often. The local checks (internal/checks) probe
-- the targets of the bundle and turn the results into health. The remote part (internal/remote)
-- subscribes to events, refetches the bundle into the store, and sends the transitions of the health.
--
-- Which file models which part:
--   Bundle.antt                the types of internal/bundle/bundle.go
--   Bundle/Validate.antt       ParseAndValidate and LoadFile
--   Bundle/Index.antt          ByFQDN and normalizeFQDN
--   Bundle/Cache.antt          SaveCache, call by call: a call succeeds, fails, or the process dies
--                              before or after it
--   Bundle/Store.antt          internal/bundle/store.go: NewStore, applyBundle, reloadIfChanged,
--                              ApplyIfChanged, and the ticks of WatchAndReload
--   Bundle/Boot.antt           internal/bundle/boot_fetch.go
--   Bundle/Samples.antt        bundles for the examples
--   Checks/Machine.antt        internal/checks/machine.go: the map of targets is an association list
--   Checks/Prober.antt         internal/checks/prober.go
--   Checks/Targets.antt        BuildTargets of internal/checks/runner.go
--   Checks/Runner.antt         RunOnce of internal/checks/runner.go; Runner/History.antt has the loop of
--                              Run as a log of passes
--   Checks/Endpoints.antt      internal/checks/k8s.go
--   Dns/Damper.antt            internal/dnsserver/damper.go: the map of records is an association
--                              list, and the injected clock is an argument
--   Dns/Answers.antt           answerSetEqual and answerKey of internal/dnsserver/damper.go
--   Dns/Evaluator.antt         internal/dnsserver/evaluate.go
--   Dns/Handler.antt           internal/dnsserver/handler.go
--   Dns/Handler/Samples.antt   a stand-in for the DNS library in the examples
--   Dns/Queries.antt           ServeDNS and Resolve by the steps of concurrent queries, between which
--                              they read and write the store, the active keys and the damper
--   Dns/Server.antt            internal/dnsserver/server.go, as a step relation on the goroutines, the
--                              channel and the select of Run
--   Remote/Url.antt            what client.go uses of net/url, and what a server reads by
--   Remote/Client.antt         internal/remote/client.go, and ReportHealth of health.go
--   Remote/Stream.antt         Subscribe of internal/remote/sse.go: the request, the scanner of lines
--                              and the idle timer around the loop
--   Remote/Backoff.antt        LinearBackoff and ExponentialBackoff of internal/remote/runner.go
--   Remote/Refetch.antt        Run, pollUntil and refetchAndApply of internal/remote/runner.go
--   Remote/Reconnect.antt      Run and pollUntil once more, as rounds in time
--   Remote/Sse.antt            the loop of Subscribe in internal/remote/sse.go
--   Remote/Reporter.antt       internal/remote/reporter.go and the types of health.go
--   Remote/Goroutines.antt     the same by the steps of its goroutines, with the mutex and the channel
--   Remote/Sending.antt        sendNow over ReportHealth, and how long a round takes
--   Main.antt                  needsK8sProbe, machineAdapter, the checks on the flags and the lazy
--                              start of the lister of cmd/zeus-gslb/main.go
--   Main/Boot.antt             the boot of main, from the flags over the client to the store
--   Main/System.antt           store, handler and checks as main puts them together: one system, whose
--                              steps are the events of its goroutines
--   Main/Publish.antt          a round of Run over the client, the stream and the store, up to the
--                              answers of the handler
--   Main/Feedback.antt         the goroutines of the checks and of the reporter over the machine that
--                              they share, by their steps
--   Main/Reports.antt          OnTransition of main, from the checks to the reporter
--   Prelude/                   byte strings, 64-bit integers with their wrap-around, Go maps, results
-- A method that changes its receiver is a function from the old state to the new one and its results;
-- an error is a value. The child modules hold the theorems, and each Examples module tests.
--
-- Parameters. json.Unmarshal, json.Marshal, net.ParseIP and the names of the DNS library are arguments
-- of the definitions that use them. So is what the system, the network and the clock return: the
-- results of the calls on files, whether net/http builds a request and what a server answers to it,
-- the results of the probes, what client-go gives at the start of a lister, and the signals that a
-- select takes. When a listener of the DNS library returns, and with what, is left to the steps.
--
-- Bounds and fuel. No function runs on fuel but the printing of decimals, whose fuel is more than the
-- number. The loop of BootFromFetch has retries + 1 rounds, that of a report six. An int is 64 bits
-- wide, and a counter or a product wraps around; a TTL is cut to 32 bits. A body of a bundle is cut
-- off at 16 MiB, and a line of a stream is shorter than 2^20 bytes. Times are nanoseconds after the
-- zero time and are unbounded.
--
-- Not modelled: the interleaving of two operations inside one another, but for queries
-- (Dns/Queries.antt), the reporter (Remote/Goroutines.antt), the checks against it
-- (Main/Feedback.antt) and the listeners (Dns/Server.antt), so each other operation is one step,
-- and so is a call of Evaluate; a power loss that reorders writes to the disk; letters beyond ASCII
-- in strings.ToLower; the sockets of HTTP requests, and their timeouts but for what
-- Remote/Sending/Duration.antt assumes that net/http keeps; a refetch that takes longer than the
-- idle timeout, behind which the select of Subscribe may take either of a line and the timer; in
-- Remote/Reconnect.antt a fetch that takes longer than the interval of the polls, and a tick that
-- falls on the deadline and is taken before it; log lines, the parsing of flags and --version.
pub mod Prelude
pub mod Checks
pub mod Bundle
pub mod Dns
pub mod Remote
pub mod Main
