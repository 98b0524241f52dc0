-- ===== src/Dispatch/Outputs.antt =====
-- logging.cc: `LogMessage::SendToLog` with `LogToAllLogfilesLocked`, `MaybeLogToLogfileLocked`,
-- `MaybeLogToStderr` and `log_destination`, under the default loggers. The caller holds `log_mutex`.
-- A stream gets the texts without their colors and fields; the crash reason is left out.
use ng_log.Prelude.{
  ℕ, zero, suc, Bool, true, false, not, ◌&&◌, ◌||◌, List, [], ◌∷◌, ◌++◌, Option, none, some, leb,
  ltb, ◌==◌, if◌then◌else◌, take,
}
use ng_log.Demangle.Machine.{ℤ, pos, negsuc}
use ng_log.LogFile.File.{LogFile, Env}
use ng_log.LogFile.Writing.{write_unlocked, created}

-- Severities are numbers.
abbrev pub fatal : ℕ
fatal = 3

abbrev pub num_severities : ℕ
num_severities = 4

pub data Stream : Type 0 where
  standard_output standard_error : Stream

-- The flags, and `exit_on_dfatal`.
pub record Settings : Type 0 where
  pub logtostdout : Bool
  pub logtostderr : Bool
  pub alsologtostderr : Bool
  pub stderrthreshold : ℤ
  pub logbuflevel : ℤ
  pub exit_on_dfatal : Bool
  pub is_logging_initialized : Bool

pub record Message : Type 0 where
  pub severity : ℕ
  pub text : List ℕ
  pub first_fatal : Bool

-- The logs stand at their severities, and share `stop_writing`. `streams` has what was written to
-- the streams, and `none` for the warning about logging before the initialization.
pub record Outputs : Type 0 where
  pub logs : ℕ → Option LogFile
  pub stop_writing : Bool
  pub streams : List (Stream × Option (List ℕ))
  pub already_warned_before_init : Bool
  pub fatal_message : List ℕ

unfoldable pub is_above : ℕ → ℤ → Bool
is_above severity (pos level) = ltb level severity
is_above severity (negsuc level) = true

unfoldable pub is_at_least : ℕ → ℤ → Bool
is_at_least severity (pos level) = leb level severity
is_at_least severity (negsuc level) = true

-- `log_destination` makes the one that is missing.
abbrev pub log_destination : Option LogFile → LogFile
log_destination none = created false []
log_destination (some log) = log

abbrev pub shared : Bool → LogFile → LogFile
shared stop log = record log { stop_writing = stop }

abbrev pub put_log : ℕ → LogFile → Outputs → Outputs
put_log severity log o = record o {
  logs = λ i. if i == severity then some log else o.logs i;
  stop_writing = log.stop_writing;
}

-- The `Write` of the logger of a severity
unfoldable pub write_log : ℕ → Env → Bool → List ℕ → Outputs → Outputs
unfolding write_unlocked
write_log severity env should_flush text o =
    put_log severity
      (write_unlocked env should_flush text
        (shared o.stop_writing (log_destination (o.logs severity))))
      o

unfoldable pub maybe_log_to_logfile : Settings → (ℕ → Env) → List ℕ → ℕ → Outputs → Outputs
unfolding is_above write_log
maybe_log_to_logfile s envs text severity o =
    write_log severity (envs severity) (is_above severity s.logbuflevel) text o

-- The loop over the severities down to zero
unfoldable pub log_to_logfiles : Settings → (ℕ → Env) → List ℕ → ℕ → Outputs → Outputs
unfolding maybe_log_to_logfile
log_to_logfiles s envs text zero o = maybe_log_to_logfile s envs text zero o
log_to_logfiles s envs text (suc i) o =
    log_to_logfiles s envs text i (maybe_log_to_logfile s envs text (suc i) o)

unfoldable pub write_stream : Stream → Option (List ℕ) → Outputs → Outputs
write_stream stream text o = record o { streams = o.streams ++ ((stream, text) ∷ []) }

-- Where `ColoredWriteToStdout` and `ColoredWriteToStdoutWithFields` write
unfoldable pub standard_output_for : Settings → ℕ → Stream
unfolding is_at_least
standard_output_for s severity =
    if is_at_least severity s.stderrthreshold then standard_error else standard_output

unfoldable pub log_to_all_logfiles : Settings → (ℕ → Env) → ℕ → List ℕ → Outputs → Outputs
unfolding log_to_logfiles write_stream standard_output_for
log_to_all_logfiles s envs severity text o =
    if s.logtostdout
    then write_stream (standard_output_for s severity) (some text) o
    else if s.logtostderr
    then write_stream standard_error (some text) o
    else log_to_logfiles s envs text severity o

unfoldable pub maybe_log_to_stderr : Settings → Message → Outputs → Outputs
unfolding is_at_least write_stream
maybe_log_to_stderr s m o =
    if is_at_least m.severity s.stderrthreshold || s.alsologtostderr
    then write_stream standard_error (some m.text) o
    else o

abbrev pub flush_log : Env → ℕ → Option LogFile → Outputs → Outputs
flush_log env severity none o = o
flush_log env severity (some log) o = write_log severity env true [] o

-- The flush of the first logs, at the time zero
unfoldable pub flush_logs : (ℕ → Env) → ℕ → Outputs → Outputs
unfolding write_log
flush_logs envs zero o = o
flush_logs envs (suc i) o =
    let before = flush_logs envs i o in
    flush_log (record (envs i) { timestamp = 0 }) i (before.logs i) before

unfoldable pub warn_before_init : Settings → Outputs → Outputs
unfolding write_stream
warn_before_init s o =
    if not o.already_warned_before_init && not s.is_logging_initialized
    then record (write_stream standard_error none o) { already_warned_before_init = true }
    else o

-- What is written of a message that does not end the program.
unfoldable pub write_message : Settings → (ℕ → Env) → Message → Outputs → Outputs
unfolding log_to_all_logfiles maybe_log_to_stderr write_stream standard_output_for
write_message s envs m o =
    if s.logtostderr || s.logtostdout || not s.is_logging_initialized
    then write_stream (if s.logtostdout then standard_output_for s m.severity else standard_error)
        (some m.text) o
    else maybe_log_to_stderr s m (log_to_all_logfiles s envs m.severity m.text o)

unfoldable pub finish_fatal : Settings → (ℕ → Env) → Message → Outputs → Outputs
unfolding flush_logs
finish_fatal s envs m o =
    let q = if m.first_fatal then record o { fatal_message = take 255 m.text } else o in
    if m.severity == fatal && s.exit_on_dfatal
    then (if not s.logtostderr && not s.logtostdout then flush_logs envs num_severities q else q)
    else o

unfoldable pub send_to_log : Settings → (ℕ → Env) → Message → Outputs → Outputs
unfolding warn_before_init write_message finish_fatal
send_to_log s envs m o = finish_fatal s envs m (write_message s envs m (warn_before_init s o))
