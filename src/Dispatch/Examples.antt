-- ===== src/Dispatch/Examples.antt =====
-- logging.cc: an error message that is logged.
use ng_log.Prelude.{ℕ, ◌≡◌, ◌≤◌, ◌<◌, refl, true, false, [], ◌∷◌, none, some, codes}
use ng_log.Demangle.Machine.{pos}
use ng_log.LogFile.File.{
  Env, discard_file_if_inherited, close_file, max_log_size, make_log_filename, flush_unlocked,
}
use ng_log.LogFile.Opening.{
  create_logfile, is_refused, truncate_file, found_content, create_file, try_bases,
}
use ng_log.LogFile.Writing.{
  created, write_unlocked, roll_over, write_to_new, write_header, maybe_flush, drop_memory,
}
use ng_log.LogFile.Writing
use ng_log.LogFile.Placement.{history}
use ng_log.Dispatch.Outputs.{
  standard_output, standard_error, standard_output_for, Settings, Message, Outputs, send_to_log,
  warn_before_init, write_message, finish_fatal, log_to_all_logfiles, maybe_log_to_stderr,
  is_at_least, is_above, log_to_logfiles, maybe_log_to_logfile, write_log, write_stream, flush_logs,
}
use ng_log.Dispatch.Destinations.{Logged, log_at, Writable, send_to_log-Written}

abbrev defaults : Settings
defaults = record {
  logtostdout = false;
  logtostderr = false;
  alsologtostderr = false;
  stderrthreshold = pos 2;
  logbuflevel = pos 0;
  exit_on_dfatal = true;
  is_logging_initialized = true;
}

abbrev env_of : ℕ → Env
env_of severity = record {
  pid = 7;
  timestamp = 100;
  time_pid_string = codes "20260102-030405.7";
  default_bases = (severity ∷ []) ∷ [];
  header = [];
  creation = λ name. record {
    status = none;
    opens = true;
    locks = true;
    truncates = true;
    attaches = true;
    content = [];
  };
  no_space = false;
  taken = 0;
  max_log_size = 1800;
  timestamp_in_logfile_name = false;
  log_file_header = false;
  stop_logging_if_full_disk = false;
  drop_log_memory = true;
  logbufsecs = 30;
}

abbrev disk_error : Message
disk_error = record { severity = 2; text = codes "disk\n"; first_fatal = false }

abbrev nothing_logged : Outputs
nothing_logged = record {
  logs = λ severity. none;
  stop_writing = false;
  streams = [];
  already_warned_before_init = false;
  fatal_message = [];
}

all-Writable : Writable env_of 2 nothing_logged
all-Writable = record { running = refl; own = λ i l. refl; space = λ i l. refl }

send_to_log-Written_example :
    ((i : ℕ)
      → i ≤ 2
      → Logged
          (env_of i)
          (codes "disk\n")
          none
          ((send_to_log defaults env_of disk_error nothing_logged).logs i))
    × ((i : ℕ) → 2 < i → (send_to_log defaults env_of disk_error nothing_logged).logs i ≡ none)
send_to_log-Written_example =
    send_to_log-Written defaults env_of disk_error nothing_logged refl refl refl all-Writable

-- Under --logtostdout an error is written to standard error, and a warning is not.
to_standard_output :
    ((send_to_log (record defaults { logtostdout = true }) env_of disk_error nothing_logged).streams
      ≡ (standard_error, some (codes "disk\n")) ∷ [])
    × ((send_to_log
          (record defaults { logtostdout = true })
          env_of
          (record disk_error { severity = 1 })
          nothing_logged).streams
        ≡ (standard_output, some (codes "disk\n")) ∷ [])
unfolding send_to_log warn_before_init write_message finish_fatal standard_output_for is_at_least
    write_stream
to_standard_output = (refl, refl)

-- The warning log has the message in its file.
warning_log :
    history (log_at 1 (send_to_log defaults env_of disk_error nothing_logged))
    ≡ record { name = 1 ∷ []; content = codes "disk\n" } ∷ []
unfolding send_to_log warn_before_init write_message finish_fatal log_to_all_logfiles
    maybe_log_to_stderr is_at_least is_above log_to_logfiles maybe_log_to_logfile write_log
    write_stream flush_logs write_unlocked discard_file_if_inherited roll_over close_file
    max_log_size write_to_new create_file create_logfile is_refused truncate_file found_content
    try_bases make_log_filename write_header Writing.write_message maybe_flush flush_unlocked
    drop_memory
warning_log = refl
