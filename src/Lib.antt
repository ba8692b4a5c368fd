-- ===== src/Lib.antt =====
-- remote-cli is a server that runs shell commands and file operations for MCP clients. This library
-- models the parts of it that keep state or decide something, and proves what they promise.
--
-- The parts and how they interact. A tool call passes the rate limiter (middleware.go) and, for a
-- command, `Executor.Launch` (executions.go): it registers an execution, starts a goroutine and lets
-- the call wait for a while; whoever of the two comes last reports the outcome. The command writes
-- into two capped buffers (output.go), which keep the head or the tail of the stream, and
-- `finishOutput` cuts that to the caller's limit at a character's boundary (executor.go). Sessions
-- (session.go) keep a working directory and environment between calls. Read-only mode (readonly.go,
-- config.go) refuses what would change the host, and every path of a file operation passes the
-- sandbox of roots (fileops.go). Dry runs and comparisons print a line diff (diff.go).
--
-- Which file models what; paths are from the repository's root:
--   Output      output.go: `cappedBuffer`, `Write`, `Bytes`, `truncated`. A method is a function from
--               the buffer to the buffer after it.
--   Truncate    executor.go: `truncateToLimit`; output.go: `finishOutput`.
--   Executions  executions.go: `claim`, `Result`, `dropOutput`, `Lookup`, `Executions`,
--               `pruneLocked`, and what `Launch` does under its locks. Executions.Handoff has the
--               interleavings of the call, the goroutine and the registry as a step relation.
--   ReadOnly    readonly.go; config.go: `applyReadOnly`, `toolEnabled`.
--   RateLimit   middleware.go: `RateLimiter` and what `RateLimitMiddleware` decides.
--   Session     session.go: `Session` and `SessionManager`.
--   Diff        diff.go: `splitDiffLines`, `diffMiddle`, and what `unifiedDiff` collects before it
--               writes hunks.
--   Auth        auth.go: `parseTokenHash`, `generateTokenHash`, `buildTokenAuth`, `AuthMiddleware`.
--               SHA-256 and the random salt are arguments.
--   Jobs        jobs.go: `Spawn`, `Kill`, `List`, `Running`, `sweep`. Jobs.Lifecycle has the timer,
--               the signals and the end of one job's process as a step relation.
--   ClientIp    clientip.go: `resolveClientIP` and what it calls, over net/netip as an interface.
--   Waits       waits.go: `Start`, `Get`, `pruneLocked`, `observe`, the end of a watcher, `snapshot`.
--   Execute     executor.go: `resolveShell`, `resolveTimeout`, `classifyWait`, and the output limit of
--               `execute`.
--   Sandbox     fileops.go: `validatePath`, `validateLinkPath`, `underRoots`, `resolvePath`,
--               `resolveRoots`. Sandbox.Leads says without them where links lead. A clean absolute path is the list of its names, the last first.
--   Files       fileops.go, manageops.go: the calls into the operating system as an interface over a
--               disk, and operations as functions from the disk to a result and the disk after it.
--               Files.Manage has `MoveFile`, `CopyFile`, `DeleteFile`, `MakeDir`; Files.Edit has
--               `EditFileContent`; Files.Write has `WriteFileContent` and `previewWrite`;
--               Files.Transfer has `UploadBase64` and `DownloadBase64`; Files.Base64 has the encoding.
--   Globs       globs.go: `compileGlobs`, `globRegexp`, `match`, `matchAny`.
--   Reading     readops.go: `readByteWindow`, `readLineWindow`, `windowLines`, `lineCount`,
--               `lineNumberAt`, `alignToLine`; Reading.Chars has `gbCharLen`, `gbWholeChars` and
--               `gbLastBoundary`.
--   Encoding    fileops.go: `detectEncoding`, `decodeLine`, `decodeText`, `decodeToUTF8`,
--               `encodeFromUTF8`, `looksBinary`; Encoding.TextInfo has `textInfo`.
--   WaitFor     waitfor.go: the limits of `planWait`, and `scanFileForMatch`.
--   Common      Lists, integers, maps and sorting over the native numbers.
--   Tests       Runs on concrete inputs, and the theorems applied there.
--
-- How the code becomes definitions. A Go map is an association list with distinct keys; its order
-- stands for the order in which a `range` meets the entries. Where a map holds pointers, the entry
-- is the object, and a change of the object is an update of the entry. Times are nanoseconds from a
-- fixed moment, and every function that reads the clock takes the time as an argument. Bytes and code
-- points are natural numbers that are only compared and moved. Go's `int` does not overflow here: the
-- sizes and times are far below 2^63, and the sums that occur are of two such. A bucket's tokens are
-- exact multiples of 1/60000000000, the share that a refill of one per minute adds in a nanosecond,
-- instead of float64: what is said of the limiter does not hold to the last bit of the rounding.
--
-- Bounds and fuel. The wrapping copy takes at least one byte in a round, so `wrap_copy` has the length
-- of the write as fuel. The walk through the diff's table takes a line of one side in a round, so
-- `walk` has the number of lines as fuel. Running out would be `none`. `resolve_path` goes down the
-- names of a path, and follows dangling links as often as `maxSymlinkHops` says.
--
-- Not modelled: processes and sockets; the registration of handlers with the MCP library and
-- the JSON views; logging and the audit; what the host reports about itself; the decoders of
-- golang.org/x/text and utf8.Valid, which are parameters of `finish_output`. What the operating
-- system does to files is the interface `Host`. Of the rest of the repository, the syntax check after a
-- write, listing, searching, tails and picked lines, and the probes and the polling of waitfor.go
-- stand outside this library. A copy of a directory takes the entries that are there when it starts;
-- a copy into the directory itself, which the lazy walk of the source goes on into, differs.
pub mod Common
pub mod Output
pub mod Truncate
pub mod Executions
pub mod ReadOnly
pub mod RateLimit
pub mod Session
pub mod Diff
pub mod Auth
pub mod Jobs
pub mod ClientIp
pub mod Waits
pub mod WaitFor
pub mod Execute
pub mod Sandbox
pub mod Files
pub mod Globs
pub mod Encoding
pub mod Reading
mod Tests
