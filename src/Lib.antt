-- ===== src/Lib.antt =====
-- ng-log: a verification library.
--
-- demangle.cc (src/demangle.cc) turns mangled C++ names into text without allocating, in a signal
-- handler. Demangle models all of it that this repository implements, `Demangle` included.
--   * Demangle/Machine, Demangle/Output: the `State` and the functions that write the output.
--     What backtracking copies is `State`; the buffer and the step budget are shared by its copies
--     and stand beside it in `Machine`.
--   * Demangle/Parser: the forms in which the functions are composed (`&&`, `||`, `Optional`,
--     `OneOrMore`, `ZeroOrMore`, the loops, copies of the state, the two guards).
--   * Demangle/Tokens, Numerals, Operators, Names, Types, Qualified, Encodings, Expressions,
--     Forms: a definition for each Parse function, under the function's name.
--   * Demangle/Grammar: the nine functions that begin with a `ParseDepthGuard` call one another
--     through `rec`, which is tied there by fuel.
--   * Demangle/Moves, Rules, Guards, Writes, Scans, Reads, Numbers, Acts, NamesGood, Listed,
--     TypesGood, QualifiedGood, ExpressionsGood, Total: every function returns and keeps the
--     machine sound.
--   * Demangle/Backtracking, Restores, Limits, Appends, Values, Ranges, Tables, Defects, Runs:
--     properties of their own; Demangle/Examples has the theorems at concrete inputs.
-- The fuel of `parse` is 65: the depth's guard fails at 64, before it runs out. `repeat` and
-- `until` take the length of the text and one more, as each round shortens the text.
--
-- vlog_is_on.cc (src/vlog_is_on.cc, and `IsVLogOn` of src/ng-log/vlog_is_on.h) decides the
-- verbosity of call sites. Vlog/Glob is `SafeFNMatch_`, Vlog/Modules the reading of --vmodule and
-- of file names, Vlog/Sites the state with `SetVLOGLevel`, `InitializeVLOG3` and `IsVLogOn`; the
-- pointer to a level is an address that never changes, and the lock makes each operation one step.
-- Vlog/Matches, Vlog/Overrides, Vlog/Redirects, Vlog/Caches and Vlog/Entries have the theorems.
-- The fuel for --vmodule is its length and one more: each entry shortens the text, and more fuel
-- changes nothing.
--
-- The experimental rate limits (src/experimental/attributes.cc) are in Throttle/Counts, as steps
-- of the threads' loads and exchanges, with Throttle/EveryNth and Throttle/FirstOnes;
-- Throttle/Period is `ClaimEveryT` of src/ng-log/logging.h behind `ThrottlePeriod`, with
-- Throttle/Spacing. The logging thread (src/experimental/async.cc) is in Async/LogThread, as steps
-- of its critical sections and its sends, with Async/Order and Async/Waiting.
-- src/ng-log/internal/utf8_encoder.h is in Utf8/Encoder, with Utf8/RoundTrip and Utf8/Surrogates.
-- src/internal/color_format.cc is in Color/Format, with Color/Complete and Color/Size.
-- src/internal/levenshtein.cc is in Levenshtein/Distance, with Levenshtein/Scripts,
-- Levenshtein/Rows and Levenshtein/Closest. `MinimalFormatter` of src/signalhandler.cc is in
-- Signal/Formatter, with Signal/Digits and Signal/Padding.
--
-- The sinks of src/logging.cc are in Sinks/Registry: `AddLogSink`, `RemoveLogSink`,
-- `BeginSinkCall`, `EndSinkCall`, `WaitForSinkCalls`, `WaitForAllSinkCalls` and
-- `DeleteLogDestinations`, as steps of the critical sections of any number of threads. Sinks/Sums
-- adds up the calls of the threads; Sinks/Calls, Sinks/Counts, Sinks/Removal, Sinks/Progress and
-- Sinks/Deadlock have the theorems.
--
-- `LogFileObject` of src/logging.cc is in LogFile/File (its state, with `MakeLogFilename` of
-- src/utilities.cc), LogFile/Opening (`CreateLogfile`) and LogFile/Writing (`Write`). What the
-- system answers to a write is its argument `Env`: what stat, open, the lock, ftruncate and fdopen
-- answer for a name, whether the disk is full, the process, the time, the flags and the text of
-- the header. Files that were closed or abandoned stay in the state as they were then, so that a
-- theorem can speak of their content. LogFile/Kept, LogFile/Sound, LogFile/Appends,
-- LogFile/Creation, LogFile/Selected, LogFile/Placement, LogFile/Rollover and LogFile/Attempts
-- have the theorems. Dispatch/Outputs is `SendToLog` of src/logging.cc with the functions that it
-- calls, over the log files of the four severities, which share `stop_writing`;
-- Dispatch/Destinations and Dispatch/Streams have the theorems. Mail/Quoting is `ShellEscape` and
-- `QuoteWindowsArgument` of src/logging.cc; Mail/Shell reads a word as a POSIX shell does, and
-- Mail/Windows an argument as the C runtime does. The other parts of src/logging.cc are not
-- modelled.
--
-- src/internal/log_cleaner.cc is in Cleaner/Logs, without its thread: the patterns, what they
-- remove from the directories, and a round of the worker. Cleaner/Names has the lemmas on sets of
-- names and on paths, Cleaner/Additions, Cleaner/Overdue and Cleaner/Rounds the theorems. What the
-- system answers while a directory is scanned is a parameter, and so are the matches of the
-- regular expression.
--
-- src/internal/flag_registry.cc is in Flags/Values (what the types of flags read and write),
-- Flags/Registry (`RegisterFlag`, `UnregisterFlag`, `FindFlagLocked`) and Flags/CommandLine
-- (`ParseCommandLineFlags`, `GetCommandLineOption`, `SetCommandLineOption`), with Flags/Digits,
-- Flags/RoundTrip, Flags/Lookups, Flags/Negations, Flags/Effects, Flags/Repeats and Flags/Options.
-- A flag has an address and what its type makes of a text. The fuel for the digits of a number is
-- at least its bits. Modules, groups, help texts, environment variables and the registry of the
-- process, whose answer is a parameter, are not modelled.
--
-- Characters are numbers, a C string is the list of its characters in front of the null character,
-- and a buffer is the list of its bytes. `DemangleWithSystem`, which calls the C++ runtime, is not
-- modelled, nor are null pointers for the text and for the buffer, with which `Demangle` returns
-- false at once.
pub mod Prelude
pub mod Demangle
pub mod Vlog
pub mod Throttle
pub mod Async
pub mod Utf8
pub mod Color
pub mod Levenshtein
pub mod Signal
pub mod Sinks
pub mod LogFile
pub mod Dispatch
pub mod Cleaner
pub mod Mail
pub mod Flags
