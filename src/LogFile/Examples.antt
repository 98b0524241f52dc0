-- ===== src/LogFile/Examples.antt =====
-- logging.cc: writes to log files, and the witnesses.
use ng_log.Prelude.{
  ℕ, zero, suc, ◌+◌, ◌*◌, ◌≡◌, ◌≤◌, refl, ap, Bool, true, false, List, [], ◌∷◌, ◌++◌, none, some,
  arith, codes, length,
}
use ng_log.LogFile.File.{
  LogFile, Env, mebibyte, max_log_size, make_log_filename, discard_file_if_inherited, is_open,
  flush_unlocked, close_file,
}
use ng_log.LogFile.Opening.{
  create_file, try_bases, create_logfile, is_refused, truncate_file, found_content,
}
use ng_log.LogFile.Writing.{
  write_header, drop_memory, maybe_flush, write_message, roll_over, write_to_new, write_unlocked,
  created, start, step, writes,
}
use ng_log.LogFile.Kept.{Sound}
use ng_log.LogFile.Sound.{Reachable-Sound}
use ng_log.LogFile.Creation.{header_text}
use ng_log.LogFile.Placement.{history, Written}
use ng_log.LogFile.Rollover.{Unwritten, write-Written, write-size}
use ng_log.LogFile.Attempts.{Call, AllBelow, write_all, write_all-attempt}

abbrev env_where : Bool → Env
env_where creates = record {
  pid = 7;
  timestamp = 100;
  time_pid_string = codes "20260102-030405.7";
  default_bases = codes "/tmp/app.log.INFO." ∷ [];
  header = codes "# log\n";
  creation = λ name. record {
    status = none;
    opens = creates;
    locks = true;
    truncates = true;
    attaches = true;
    content = [];
  };
  no_space = false;
  taken = 0;
  max_log_size = 1;
  timestamp_in_logfile_name = false;
  log_file_header = true;
  stop_logging_if_full_disk = false;
  drop_log_memory = true;
  logbufsecs = 30;
}

abbrev message : List ℕ
message = codes "hello\n"

abbrev new_log : LogFile
new_log = created true (codes "/var/log/app")

abbrev written : LogFile
written = write_unlocked (env_where true) false message new_log

-- The first message follows the header, and the next one follows it.
first_content :
    written.file ≡ some (record { name = codes "/var/log/app"; content = codes "# log\nhello\n" })
unfolding write_unlocked roll_over close_file max_log_size write_to_new create_file write_header
    write_message maybe_flush flush_unlocked drop_memory make_log_filename try_bases
    discard_file_if_inherited create_logfile is_refused truncate_file found_content
first_content = refl

written-is_open : is_open written.file ≡ true
written-is_open = ap is_open first_content

-- What the system answers where the file is there, with so many bytes and this content.
abbrev found : ℕ → List ℕ → Bool → Env
found size content opens = record (env_where true) {
  creation = λ name. record {
    status = some size;
    opens = opens;
    locks = true;
    truncates = true;
    attaches = true;
    content = content;
  };
}

-- A file that is there is appended to, or truncated if it is large; if it cannot be opened its size is
-- the length of the log, which makes the next write try again at once.
found_file :
    ((write_unlocked (found 4 (codes "old\n") true) false message new_log).file
      ≡ some (record { name = codes "/var/log/app"; content = codes "old\n# log\nhello\n" }))
    × ((write_unlocked (found (2 * mebibyte) (codes "old\n") true) false message new_log).file
        ≡ some (record { name = codes "/var/log/app"; content = codes "# log\nhello\n" }))
    × ((write_unlocked
          (env_where true)
          false
          message
          (write_unlocked (found (2 * mebibyte) [] false) false message new_log)).file
        ≡ some (record { name = codes "/var/log/app"; content = codes "# log\nhello\n" }))
unfolding write_unlocked roll_over close_file max_log_size write_to_new create_file write_header
    write_message maybe_flush flush_unlocked drop_memory make_log_filename try_bases
    discard_file_if_inherited create_logfile is_refused truncate_file found_content
found_file = (refl, refl, refl)

Reachable-Sound_example : Sound written
Reachable-Sound_example =
    Reachable-Sound
      (step (start true (codes "/var/log/app")) (writes (env_where true) false message new_log))

write-Written_example :
    Written
      (Unwritten (env_where true) new_log)
      (env_where true)
      message
      (history new_log)
      (history (write_unlocked (env_where true) false message new_log))
write-Written_example = write-Written (env_where true) false message new_log refl refl refl

write-size_example :
    (write_unlocked (env_where true) false message new_log).file_length
    ≤ max_log_size (env_where true).max_log_size * mebibyte
      + length (header_text (env_where true))
      + length message
write-size_example =
    write-size (env_where true) false message new_log refl refl refl refl refl written-is_open

abbrev call_where : Bool → Call
call_where creates = record { env = env_where creates; force_flush = false; message = message }

abbrev calls : ℕ → List Call
calls zero = []
calls (suc n) = call_where true ∷ calls n

abbrev failed_log : LogFile
failed_log = record new_log { rollover_attempt = 0; file_pid = 7 }

create_file-fails : create_file (env_where false) new_log ≡ (failed_log, false)
unfolding create_file create_logfile is_refused truncate_file found_content make_log_filename
create_file-fails = refl

all-AllBelow : (n : ℕ) → AllBelow 0 (calls n)
unfolding max_log_size
all-AllBelow zero = tt
all-AllBelow (suc n) = (omega arith, all-AllBelow n)

write_all-attempt_example :
    (write_all (call_where false ∷ calls 31) new_log ≡ record failed_log { rollover_attempt = 31 })
    × ((write_all ((call_where false ∷ calls 31) ++ (call_where true ∷ [])) new_log).file
        ≡ some (record { name = codes "/var/log/app"; content = codes "# log\nhello\n" }))
unfolding create_file create_logfile is_refused truncate_file found_content make_log_filename
write_all-attempt_example =
    write_all-attempt (call_where false) (calls 31) (call_where true) new_log refl
      (unfold max_log_size in omega arith) refl refl refl refl refl (omega arith) (all-AllBelow 32)
      refl refl refl
