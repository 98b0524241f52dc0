-- ===== src/LogFile/File.antt =====
-- logging.cc: `LogFileObject`, with `MaxLogSize`, and `MakeLogFilename` of utilities.cc. Its mutex
-- makes each operation one step. What the system answers, and the texts and flags that a write
-- reads, are in `Env`; a file is its name and the bytes that were written to it.
use ng_log.Prelude.{
  same_text, ℕ, ◌+◌, ◌-◌, Bool, true, false, not, ◌&&◌, List, [], ◌∷◌, ◌++◌, Option, none, some,
  ltb, ◌==◌, if◌then◌else◌,
}

pub record File : Type 0 where
  pub name : List ℕ
  pub content : List ℕ

-- `stop_writing`, which the files share, may change between two operations. `closed` has the files as
-- they were when they were closed, `abandoned` those that a child process dropped.
pub record LogFile : Type 0 where
  pub is_selected : Bool
  pub base_filename : List ℕ
  pub filename_extension : List ℕ
  pub file : Option File
  pub file_pid : ℕ
  pub bytes_since_flush : ℕ
  pub dropped_mem_length : ℕ
  pub file_length : ℕ
  pub rollover_attempt : ℕ
  pub next_flush_time : ℕ
  pub stop_writing : Bool
  pub closed : List File
  pub abandoned : List File

-- What the system answers to `CreateLogfile` for a name: the size that `StatPath` finds, whether
-- `OpenPath`, the lock, `ftruncate` and `fdopen` succeed, and the bytes of the file that is opened,
-- which O_EXCL makes a new one.
pub record Creation : Type 0 where
  pub status : Option ℕ
  pub opens : Bool
  pub locks : Bool
  pub truncates : Bool
  pub attaches : Bool
  pub content : List ℕ

-- `creation` is what the system answers for a name, `no_space` that `fwrite` sets ENOSPC, and
-- `taken` how many bytes it takes then. `default_bases` are the names for the logging directories.
pub record Env : Type 0 where
  pub pid : ℕ
  pub timestamp : ℕ
  pub time_pid_string : List ℕ
  pub default_bases : List (List ℕ)
  pub header : List ℕ
  pub creation : List ℕ → Creation
  pub no_space : Bool
  pub taken : ℕ
  pub max_log_size : ℕ
  pub timestamp_in_logfile_name : Bool
  pub log_file_header : Bool
  pub stop_logging_if_full_disk : Bool
  pub drop_log_memory : Bool
  pub logbufsecs : ℕ

abbrev pub mebibyte : ℕ
mebibyte = 1048576

abbrev pub rollover_attempt_frequency : ℕ
rollover_attempt_frequency = 32

unfoldable pub max_log_size : ℕ → ℕ
max_log_size flag = if flag == 0 then 1 else if ltb flag 4095 then flag else 4095

unfoldable pub make_log_filename : List ℕ → Env → LogFile → List ℕ
make_log_filename base env f =
    (if env.timestamp_in_logfile_name then base ++ env.time_pid_string else base)
    ++ f.filename_extension

-- What an assignment of null to `file_`, and of zero to the counts, leaves.
abbrev pub without_file : LogFile → LogFile
without_file f = record f {
  file = none;
  file_length = 0;
  bytes_since_flush = 0;
  dropped_mem_length = 0;
  rollover_attempt = rollover_attempt_frequency - 1;
}

abbrev pub file_list : Option File → List File
file_list none = []
file_list (some file) = file ∷ []

unfoldable pub close_file : LogFile → LogFile
close_file f = record (without_file f) { closed = f.closed ++ file_list f.file }

abbrev pub is_open : Option File → Bool
is_open none = false
is_open (some file) = true

unfoldable pub discard_file_if_inherited : ℕ → LogFile → LogFile
discard_file_if_inherited pid f =
    if is_open f.file && not (f.file_pid == pid)
    then record (without_file f) { abandoned = f.abandoned ++ file_list f.file }
    else f

unfoldable pub set_basename : ℕ → List ℕ → LogFile → LogFile
unfolding close_file discard_file_if_inherited same_text
set_basename pid basename f =
    let g = record f { is_selected = true } in
    if same_text f.base_filename basename
    then g
    else record (close_file (discard_file_if_inherited pid g)) { base_filename = basename }

unfoldable pub set_extension : ℕ → List ℕ → LogFile → LogFile
unfolding close_file discard_file_if_inherited same_text
set_extension pid ext f =
    if same_text f.filename_extension ext
    then f
    else record (close_file (discard_file_if_inherited pid f)) { filename_extension = ext }

-- `now` and `logbufsecs` are in one unit.
unfoldable pub flush_unlocked : ℕ → ℕ → ℕ → LogFile → LogFile
unfolding discard_file_if_inherited
flush_unlocked pid now logbufsecs f =
    let g = discard_file_if_inherited pid f in
    record g {
      bytes_since_flush = if is_open g.file then 0 else g.bytes_since_flush;
      next_flush_time = now + logbufsecs;
    }
