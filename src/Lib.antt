-- ===== src/Lib.antt =====
-- confd: configuration files kept in step with a key-value store.
--
-- The program loads template resources from TOML files (pkg/template/resource.go), asks a backend
-- for the values of their keys (pkg/backends), renders each template to a staged file beside its
-- destination, compares the two (pkg/util), and puts the staged file in place, with a check
-- command before and a reload command after. A processor (pkg/template/processor.go) does this
-- once, at an interval, or whenever the backend reports a change.
--
-- The modules:
--   Prelude             lists, options, Boolean tests on the native numbers.
--   Std                 what the code uses of Go's standard library on strings: prefixes, splits,
--                       `path.Clean` and `path.Join`, `strconv`, `fmt.Sprintf`, errors, maps.
--   Platform            what lies outside the repository, as a record of operations on a state:
--                       the file system (os and afero), symbolic links, users and groups, the
--                       shell, TOML, text/template, memkv, the md5 sum. Platform/Laws states
--                       what the theorems rely on: operations on one file leave the others as
--                       they are, a rename moves a file, a store returns what was set, a
--                       template that asks nothing but the store prints its text.
--                       Platform/Memory is a machine in memory that has these laws.
--   Util                pkg/util/util.go, filestat_posix.go and filestat_windows.go.
--                       `append_prefix` is `AppendPrefix`, `is_config_changed` is
--                       `IsConfigChanged`, and so on.
--   Template/Resource   pkg/template/resource.go. Load is `NewTemplateResource`, Vars is `setVars`
--                       and `setFileMode`, Stage is `CreateStageFile`, Sync is `sync` with `check`
--                       and `reload`, Run is `process`. A method takes the resource and the state
--                       outside it, and returns an error or none with both as it left them.
--   Template/Processor  pkg/template/processor.go. The once-only `Process`, then Interval for
--                       `intervalProcessor.Process`, Watching for `watchProcessor.Process` and
--                       Watch for `monitorPrefix`. An endless loop is run for a list of what its
--                       select receives, or for a number of rounds. Together runs the goroutines
--                       of all resources by a schedule: a list of who makes its next call.
--   Backends            pkg/backends: Env and Etcd (Store for the way to a template's store,
--                       Watch, Prefix and Reconnect for the watches of a prefix), Consul,
--                       Ssm, File, Vault, Zookeeper, Dynamodb, Redis, and Choice for `New`. A
--                       module Connect is the creation of a client with the options of its
--                       connection, over Tls for certificates. What a server answers is
--                       an argument. Vault and Zookeeper walk trees that only the server knows:
--                       these walks go to a depth that is an argument, and a depth beyond the
--                       height of the tree is enough.
--   Template/Functions  pkg/template/template_funcs.go: Sequence for `Seq`, Reversal for `Reverse`,
--                       Maps for `CreateMap`, Network for the look-ups of addresses, Arithmetic for
--                       `add`, `sub`, `mul`, `div` and `mod`, Encodings for JSON and base64.
--   Log                 pkg/log/log.go, over logrus as a parameter.
--   Command             cmd/confd: Settings for the configuration and the defaults of its flags,
--                       Config for `initConfig`, Start for the client that is created from it,
--                       Main for `main` up to its loop, Loop for the loop, Reports for `errChan`
--                       between the loop and the goroutines of the watch processor.
--   Tests               samples and the theorems at concrete inputs.
--
-- Not modelled: which log lines the other parts print, time (a sleep does nothing), the clients
-- of the backends' servers, and the parser of the flags. A goroutine's call is one step: two
-- goroutines do not interleave within a call. A Go map is an association list, in the order in
-- which it was filled. Text is a list of bytes, and case is that of ASCII. Recursion is
-- structural, but for the two walks to a depth, the scans of Redis, which are followed for a
-- number of parts, and `Seq` and the way up to the root in the watch of Zookeeper, which run for
-- a number of rounds; enough of each is a hypothesis that the theorems name. The ints of `Seq`
-- stand by their distance from the least int, in the range of 2 ^ 64, those of Arithmetic by
-- their pattern in two's complement. In Std/Fmt a format has verbs of one letter; one with
-- flags, a width or an index has no result there.
pub mod Prelude
pub mod Std
pub mod Platform
pub mod Util
pub mod Template
pub mod Backends
pub mod Log
pub mod Command
mod Tests
