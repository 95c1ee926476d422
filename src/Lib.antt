-- ===== src/Lib.antt =====
-- SPLITTER runs many Tor instances in several countries behind one HAProxy. This library models its Go
-- code and proves what makes the parts correct. Paths are those of the repository.
--
-- The parts, and how they interact
--   Network   internal/network/allocator.go: the ports that have been handed out, singly or in ranges. The
--             Tor part does not call it: it counts its ports from the configured starts. Each call holds
--             the mutex from its first line to its last, so that a call is one step and a run is a list
--             of calls.
--   Config    internal/config: `Load` lays the defaults, the configuration file, the user agents, the
--             profile, the environment and the flags over each other and validates the result. Types,
--             Defaults, Profiles, Env, Flags, Validate and Load stand for config.go, profiles.go, env.go,
--             loader.go and validate.go. The configuration is what the Tor part reads.
--   Tor       internal/tor: Version (version.go), Backoff and Restart (restart.go), Instance (instance.go
--             and bridges.go) and Manager (manager.go). The manager makes the instances from the
--             configuration and the detected version; the restart loop of each launches its process and
--             signals when it is ready; the manager's `RotateInstance` stops and starts an instance.
--   Country   internal/country/selector.go and daemon.go: the random choice of countries, and the daemon
--             that rotates instances. It asks the manager through an interface, InstanceRotator. Fetcher
--             (metrics.go): the country codes of the Tor metrics page, and their cache.
--   Circuit   internal/circuit: Protocol and Pattern (client.go: the dialogue with a control port, and its
--             regular expressions) and Renewer (renewer.go: the loops that renew the circuits).
--   Proxy     internal/proxy: which process stands in front of each instance. The native mode has the HTTP
--             tunnel of Tor, the legacy mode a Privoxy for each instance.
--   Haproxy   internal/haproxy/config.go and manager.go: the backends that HAProxy is given, from the
--             instances of the manager and the configuration, and the state of its process.
--   Health    internal/health/dnsleak.go: the SOCKS5 client that resolves a domain through an instance's
--             SOCKS port, over a connection that delivers its bytes in chunks, and Leak, the test of an
--             instance and the loop of the periodic checker. Reputation (reputation.go), Check (check.go) and Status (status.go): the
--             rating of the exits with its cache, the required programs, and what the status shows.
--   Process   internal/process/manager.go, spawn.go and shutdown.go: the state of a child process, as
--             `Spawn`, `Stop` and the exit of the process change it. The proxies start and stop their
--             children through it.
--   Metrics   internal/metrics: the registry of counters and gauges (registry.go), the metrics of SPLITTER
--             (splitter.go) and the text that is exposed.
--   Cmd       cmd/run.go and cmd/reload.go: the start and the shutdown of `run`, the adapter through which
--             the country daemon rotates the manager's instances, and the reload on SIGHUP, which hands a
--             new configuration on to the daemon and to HAProxy.
--   Cli       small parts around the command line: internal/cli/flags.go and logger.go, the names of
--             internal/profile/profile.go, the password of internal/haproxy/stats_password.go and the
--             files that internal/process/cleanup.go removes.
--   Prelude   the Boolean tests, lists, 64-bit integers and ASCII texts that the parts share.
--
-- How code corresponds to definitions
--   A struct is a record and an operation is a function of the same name in antt's spelling: `AllocateN`
--   is `allocate_n`. State is passed explicitly; an operation that changes a record returns it. A Go
--   error is a constructor of an error type, of which the text is left out. An `int` is a ℤ, and the
--   sums and products that may leave 64 bits wrap around (add64, mul64). Ports of the allocator and
--   ids of instances, which count from 0, are natural numbers. A pointer that may be nil is an Option, a
--   map is a list of pairs or of keys. A `select` is an event for each of its cases.
--
-- Loops and bounds
--   Every loop is structural recursion: the scans of the allocator on the rounds left, which are the 1000
--   of `maxPortScan`; the backoff on the failures left; the loops over slices on the list; a regular
--   expression on the text. None needs fuel that could run out.
--
-- Parameters
--   What the operating system and third-party packages do is an argument: `net.Listen`, the files and the
--   environment (World), the yaml decoder, cobra's flags (FlagReader), `rand.Intn`, the exchanges that
--   `rand.Shuffle` asks for, `filepath.Join`, how a process starts (StartOutcome), how the HAProxy file is
--   written (Generated), and the chunks that a connection's reads deliver (Conn). So are the connection
--   to a control port, its cookie and the ticks of a renewer's loop, the requests of the country list and
--   of the reputation and their cache files, `time.Parse`, `sort.Slice`, the floats of the metrics and
--   the order in which a loop over a map runs. `reflect.DeepEqual` is the equality of the records.
--   Texts are ASCII where their case or their blanks matter.
--
-- Not modelled
--   The text templates of torrc and HAProxy with the files that they are written to, the handlers of the
--   HTTP servers, the lines of the log, the declaration of cobra's flags, the loader of profile files, the
--   table of the status, a read that blocks for ever, a write on a control connection that fails
--   behind one that has not, or is cut short, and the fan-out of `StartAll`, which the program does not
--   call, over goroutines.
pub mod Prelude
pub mod Network
pub mod Config
pub mod Tor
pub mod Circuit
pub mod Cli
pub mod Cmd
pub mod Country
pub mod Haproxy
pub mod Health
pub mod Metrics
pub mod Process
pub mod Proxy
