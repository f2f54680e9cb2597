-- ===== src/Lib.antt =====
-- Hegel, the metadata service of Tinkerbell: a server that answers a machine's requests for its own
-- metadata, which it finds by the address that the request comes from.
--
-- The parts and how they meet. A backend finds an instance by an IP address: the flatfile backend in
-- a YAML file, the Kubernetes backend in a cluster's Hardware resources. A frontend registers handlers
-- with a gin router; a handler takes the address from the request, asks the backend, and answers
-- on its context. The command chooses the backend from its options and puts the frontends over it.
--
-- Files and what they model:
--   StaticRoute    internal/frontend/ec2/internal/staticroute: `Builder` (`from_endpoint` is
--                  FromEndpoint, `build` is Build) and its `unorderedSet`; `StaticRoute.Abstract`
--                  is what a builder holds, whatever the order of its maps
--   Ec2            internal/frontend/ec2: the instance (instance.go), `Ec2.Routes` the data endpoints
--                  (routes.go), `Ec2.Frontend` the handlers and `configure` (frontend.go)
--   GinUtil        internal/ginutil/router.go, and the calls that handlers make on a context;
--                  `GinUtil.Fake` is the response writer for tests of internal/ginutil/context.go
--   Errors         error values, and internal/http/httperror
--   Net            net.SplitHostPort, and RemoteAddrIP of internal/http/request
--   Flatfile       internal/backend/flatfile
--   Kubernetes     internal/backend/kubernetes; `Kubernetes.Connect` is NewBackend
--   Backend        internal/backend, and toBackendOptions of internal/cmd/root.go
--   Serving        the EC2 frontend over each backend, as Run of internal/cmd/root.go wires them
--   Hack           internal/frontend/hack; `Hack.Model` is its instance
--   Healthcheck    internal/healthcheck, and the revision of internal/build
--   Hegel          internal/frontend/hegel: `Hegel.Model` the data, `Hegel.Handlers` and
--                  `Hegel.Networks` the handlers, `Hegel.Endpoints` their registration
--   Xff            internal/xff: the trusted proxies, and the middleware
--   Metrics        internal/metrics/metrics.go
--   Command        the endpoints that Run of internal/cmd/root.go registers, and internal/metrics/http.go;
--                  `Command.Flags` is NewRootCommand, configureFlags and PreRun,
--                  `Command.Chain` the middleware around a handler, `Command.Run` is Run
--   Server         internal/http/serve.go: `Step` is a step of a goroutine or of the context; the state
--                  keeps what ListenAndServe and Shutdown returned
--   Logger         internal/logger/logger.go
--   Main           cmd/hegel/main.go; `Main.Lifetime` is the process from its call of Serve on,
--                  with the deferred calls of Run after it, and `Main.Refused` the settings with which
--                  it never serves
--   Contexts       the contexts and signals of Go that the command passes on
--   Netip, Cidr    netip.ParseAddr, and net.ParseIP and net.ParseCIDR over it
--   Prelude, Options, Strings, Sort, GoMap, Strconv: the parts of the language and its standard library
--   Witnesses      the theorems at concrete inputs
--
-- How the code is modelled. A string is the list of its bytes. A Go map is a list of bindings with
-- distinct keys, and the order of the list is the order of an iteration, which Go leaves open. A pointer
-- that may be nil is an option; an `(x, error)` pair is a `Result`. A handler's effect is the list of the
-- calls it makes on its gin context, in order, so that a second answer shows; a router is the
-- list of its registrations. An `int` that `strconv.Atoi` reads is bounded by 64 bits, and the
-- theorems that spell an index as text ask for at most 2 ^ 63 elements. `strconv.Itoa` divides by
-- ten on fuel, one step more than the number, which its round trip shows to be enough. The loop
-- over the fields of an IPv6 address has 8 rounds, each of which reads 2 of its 16 bytes or ends it.
-- All other loops are structural.
--
-- Parameters, since their code is not in the repository: the YAML decoder and the file system
-- (`Flatfile.Files`), the libraries for a cluster (`Kubernetes.Connect.ClusterApi`), JSON decoding, the
-- xff library (`Xff.XffLibrary`), Prometheus (`Metrics.Prometheus`), gin's way of running middleware
-- (`Command.Chain.Gin`), the libraries for flags and configuration (`Command.Flags.Library`), and
-- what cobra makes of the arguments (`Main.Arguments`), and the context that OpenTelemetry makes of
-- another (a field of `Command.Run.Outside`). The theorems ask of them what is documented:
-- `Metrics.Counted.IsCounting`, `Metrics.Counted.IsRefusing`, `Main.Lifetime.Lawful.AddsValues`,
-- `Command.Run.Untrusted.LeavesOthers` (where there are networks only), `Command.Chain.Logged.IsContext`,
-- `Command.Chain.Answered.IsGin` and `Command.Flags.Configured.IsViper`.
-- What the theorems ask of a cluster is the documented meaning of a field index
-- (`Kubernetes.Connected.IndexesObjects`).
--
-- Concurrency: the server is a step relation, so that its theorems hold of each interleaving of its
-- goroutines. What the listener and the shutdown give is chosen by the step. A process that serves is one
-- too, of the server, the deferred calls of Run, the goroutine that starts a cluster, and the signals that
-- arrive; a panic of that goroutine before Serve is called is not among its steps, since Run up to there
-- is a function. The shutdown of the server and that of OpenTelemetry are taken to return: the first is
-- given five seconds by the code, which are not counted, and its error of a deadline is one of its
-- results. A signal that arrives once Run has stopped listening kills the process or has no effect.
--
-- Not modelled: what Run writes to the log and traces, which are calls of other libraries.
-- JSON encodings are values that the model does not look into.
pub mod Backend
pub mod Cidr
pub mod Command
pub mod Contexts
pub mod Ec2
pub mod Errors
pub mod Flatfile
pub mod GinUtil
pub mod GoMap
pub mod Hack
pub mod Healthcheck
pub mod Hegel
pub mod Kubernetes
pub mod Logger
pub mod Main
pub mod Metrics
pub mod Net
pub mod Netip
pub mod Options
pub mod Prelude
pub mod Server
pub mod Serving
pub mod Sort
pub mod StaticRoute
pub mod Strconv
pub mod Strings
pub mod Witnesses
pub mod Xff
