-- ===== src/Lib.antt =====
-- Solidlint, a linter for SOLID design heuristics in Go: its core between the checks and the
-- reports.
--
-- A run resolves which checks are selected (Registry, from internal/analyzer/registry.go), groups
-- them into a plan (Plan, plan.go), runs the plan's jobs over the packages with a pool of workers
-- (Run, run.go), keeps what the analysis mode supports and what no comment suppresses
-- (Suppression, run.go), and completes the identities of the findings (Issues, types.go), whose
-- fingerprints rest on portable paths (Paths, paths.go). Baselines accept findings by their
-- fingerprints (Baseline, internal/baseline/baseline.go). The configuration comes from defaults,
-- thresholds and files (Config, types.go, thresholds.go and control.go), excludes files by
-- patterns and overrides severities (Exclude, control.go), and its errors suggest names that are
-- near to the one given (Suggest, control_yaml.go). The command line (Cli, internal/cli) makes
-- options and a file that is found above the targets (Config.Discovery, control.go) into a policy,
-- runs it, and answers with an exit code; a run counts what it does (Run.Statistics and
-- Run.Coverage, stats.go).
--
-- Base has what the parts share: strings as lists of bytes, maps as association lists, results,
-- sorting, Go's functions on ASCII strings and integers. Ids has the constants of types.go.
-- Registry has the table of checks, its index and the selection, with their theorems in
-- Registry.Resolve. The grouping loop is Plan.Groups and Plan.Runners has the runner of a group,
-- and the theorems are in Plan.Partition. Config.Settings is the configuration, Config.Thresholds
-- the registry of thresholds and the validation, Config.File a configuration file. Issues.Evidence
-- reads an identity from a finding's evidence, Issues.Finalize is FinalizeIssues. Run.Jobs are the
-- jobs, Run.Pool is executePackageJobs as a relation of steps of the feeder, the workers and the
-- caller, with the channels, the closing and the messages that a worker is done; its invariant is
-- in Run.Accounts, and the theorems are in Run.Delivered and Run.Progress. There are Run.Owners
-- with the filter of modes, Run.Identities with the disambiguation of equal identities, and
-- Run.Whole is RunPlan, with the jobs in their order. Suppression.Directives reads comments and
-- declarations, Suppression.Locations matches them with findings. Baseline.Document is the
-- document and its validation, Baseline.Update is Diff, Update and Prune. Cli.Options has the
-- flags (options.go), Cli.Policy the policy (policy.go), Cli.Commands and Cli.Dispatch the
-- commands (commands.go and run.go), as functions on a disk that baselines stand on.
-- Checks.Similarity compares functions by their tokens (ocp_util.go), and Checks.Parallel groups
-- those that look alike, from their shapes on (ocp_parallel.go). Examples has runs of the
-- definitions and the theorems at concrete inputs. A definition has the name of its Go function in
-- snake_case.
--
-- Every loop is structural recursion over the slice that it ranges over, but for FindConfig's way
-- up, which takes fuel: two rounds more than the starting directory has bytes are enough, as a
-- theorem says. Where Go leaves the order of a map's keys or of equal elements open, the theorems
-- hold for every order or say what they need. Strings are compared byte by byte; the case of
-- letters and white space are those of ASCII. Integers of thresholds are unbounded; line numbers
-- and counts are natural.
--
-- Parameters are the SHA-256 digest and the float parser (Issues.Issue.Platform), filepath.Match
-- on one path element (Exclude.Glob.SegmentMatch), what the checks report (Run.Jobs.CheckRunners),
-- the removal of excluded files, which type-checks again, and the receiver around a finding
-- (Run.Whole.Analyzer), the file system that is searched for a configuration
-- (Config.Discovery.FileSystem), and the flag package, the terminal, the loading of packages and
-- the disk of the commands (Cli.Commands.System). Go's parser, JSON and YAML are taken as done:
-- files are declarations and comments with their lines, and documents are records. Paths are those
-- of a system with slashes, besides Windows style ones.
--
-- Not modelled: the checks themselves (internal/analyzer/srp*.go, ocp*.go, lsp*.go, isp*.go,
-- dip*.go), which are heuristics over go/ast and go/types, but for the groups of similar
-- functions; workspace loading; the package cache, so jobs run with the cache turned off; the
-- texts that commands print; JSON and SARIF reports; plugins; reading and writing files.
pub mod Base
pub mod Ids
pub mod Registry
pub mod Plan
pub mod Suggest
pub mod Config
pub mod Examples
pub mod Paths
pub mod Issues
pub mod Baseline
pub mod Suppression
pub mod Exclude
pub mod Run
pub mod Cli
pub mod Checks
