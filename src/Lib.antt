-- ===== src/Lib.antt =====
-- dridock: the wrapper of docker-claudebox, dridock-ts/src, in TypeScript.
--
-- dridock starts a coding agent in a container of a virtual machine per project. A command line
-- goes through the launch guards and the registry of commands; the start command brings up the
-- machine, copies the image to it from the machine that builds it, cb-infra, and runs a
-- container. Agents of a project post messages to each other through issues; a watcher polls for
-- them and delivers them.
--
-- Base holds what the modules share: lists, JavaScript strings as lists of code units (Texts),
-- lines of a text (Lines), objects and maps as association lists (Dicts), thrown errors as
-- values (Results), decimal numbers (Numbers), the order of strings (Orders) and runs of
-- characters (Runs).
--
-- Watch models the watcher: Watch/Header is services/AgentTeamHeader.ts (parseHeader,
--   formatHeader, surfacesForAgent), Watch/Event services/WatcherEvent.ts, Watch/Store the state
--   of services/WatcherStore.ts (isDelivered, markDelivered), Watch/Persist its load and save,
--   Watch/Loop runOneTick of services/WatcherLoop.ts with its delivery loop as handle_events over
--   the record Progress, Watch/Github services/GithubWatchSource.ts (poll), Watch/Inbox
--   services/InboxSink.ts, Watch/Liveness services/PidLiveness.ts.
-- Team models services/AgentRoster.ts and the posting of messages: Team/Roster is parseRoster
--   line by line, with what it throws as RosterError, and resolveSelfName; Team/Post and Team/Send
--   are runPost of cli/commands/TeamCommand.ts, which plans a message from the arguments and then
--   carries the plan out with calls of gh; Team/Shell is shellQuote, beside how the shell reads;
--   Team/Fetcher is runFetcher, Team/Dir runDir with services/TeamSharedDir.ts, and Team/Watching
--   runWatch, which runs the ticks of Watch/Loop over Watch/Github, Watch/Persist and a sink;
--   Team/Run is run, which reads the roster and chooses among them.
-- Files is the interface of infra/FileSystem.ts, a record of calls over the state of the files,
--   with the promises of its comments as the record IsLawful; Files/Memory is an instance in
--   memory, Files/Kept what a chain of calls keeps.
-- Config models the files of settings: Config/Yaml and Config/Project services/ProjectConfig.ts,
--   Config/Machine services/MachineConfig.ts and domain/paths.ts, Config/Root
--   services/ProjectRoot.ts.
-- Migrate models the way from .claudebox to .dridock: Migrate/Report services/MigrationReport.ts,
--   Migrate/Moves services/DotDirMigrator.ts and two of services/migrators, Migrate/StateDirs and
--   Migrate/Workspace the others, Migrate/Auto services/AutoMigrate.ts.
-- Domain/Version is domain/Version.ts.
-- Image models the copying of images: Image/Docker the names in infra/Docker.ts and the calls of
--   docker and colima as a record, Image/Ensure services/ImageEnsureService.ts, Image/Check
--   classify of services/CheckVersion.ts, Image/DotMount services/DotMountGate.ts.
-- Vm models the machine of a project: Vm/Limits services/VmLimits.ts, Vm/Ensure
--   services/VmEnsureService.ts, over the records Colima and Settings.
-- Container models what a container is run with: Container/Name services/ContainerName.ts,
--   Container/Passthrough services/EnvMountPassthrough.ts, Container/Exclusions
--   services/DotExclusions.ts.
-- Settings/Features models parseFeatures and stripFeaturesBlock of services/ProjectConfig.ts,
--   Settings/Env domain/EnvResolver.ts.
-- Cli models the way to a command: Cli/Guard is services/NoDridockGuard.ts and
--   services/WorkspaceGuard.ts, Cli/Registry domain/Verbs.ts and cli/CommandRegistry.ts, Cli/Args
--   services/ProgArgValidator.ts with the loop of validateProgArgs as take_args.
-- Examples evaluates the definitions and applies the theorems at concrete inputs.
--
-- State is passed on explicitly. All that lies outside a function, the file system, docker, the
-- clock and the sink of messages, is a type W with the calls as arguments over it, so that a
-- theorem holds for whatever they do; where one relies on a call, that is a named hypothesis, such
-- as IsQuiet: to inspect an image or to list the machines changes nothing. In Vm what colima and
-- the settings' files show is read off W, and only start, ensure_image and wait_reachable change
-- it. An await is the next step of one sequence: the code modelled runs one tick or one command at
-- a time. A call that may throw returns a Result and a state, which is kept after a throw (Outcome
-- in Files): those of the file system, the poll, the save and the callbacks of the watch loop,
-- except that what its sink's onEvent throws is one of its answers (Answer in Watch/Loop). The
-- clock, the reads of files that return no Result, and the calls of docker, colima and the shell,
-- which answer with exit codes, are taken not to throw.
--
-- Regular expressions are written as scanners. Numbers are exact, as JavaScript's are below 2^53;
-- the FNV hash of an event keeps its wrap-around at 2^64. The bounds are the source's: 500
-- delivered hashes, 10 deliveries of an event, 1024 directories on the way up, which are enough
-- for every path of fewer than 1023 slashes. The live loop of runWatch has fuel that counts its
-- rounds, and returns none when it runs out; n + 1 is enough when the end is asked for within n
-- rounds. All other recursion is structural.
--
-- Not modelled: most texts of messages and of the help, Number(s) and the Unicode classes of
-- letters and numbers, and the reading and writing of JSON, which are parameters, the adapters of
-- infra/, which only call other programs, and the shell and Python code that runs in the image.
pub mod Base
pub mod Cli
pub mod Config
pub mod Container
pub mod Domain
pub mod Examples
pub mod Files
pub mod Image
pub mod Migrate
pub mod Settings
pub mod Team
pub mod Vm
pub mod Watch
