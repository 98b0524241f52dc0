-- ===== src/LogFile/Writing.antt =====
-- logging.cc: `LogFileObject::Write`, and the steps of the operations.
use ng_log.Prelude.{
  ℕ, ◌+◌, ◌-◌, ◌*◌, ◌/◌, ◌%◌, ◌^◌, Bool, true, false, not, ◌&&◌, ◌||◌, List, [], ◌∷◌, ◌++◌, Option,
  none, some, leb, ◌==◌, if◌then◌else◌, length, take,
}
use ng_log.LogFile.File.{
  File, LogFile, Env, mebibyte, rollover_attempt_frequency, max_log_size, close_file, is_open,
  discard_file_if_inherited, set_basename, set_extension, flush_unlocked,
}
use ng_log.LogFile.Opening.{create_file}

abbrev pub append_content : List ℕ → Option File → Option File
append_content bytes none = none
append_content bytes (some file) = some (record file { content = file.content ++ bytes })

unfoldable pub write_header : Env → LogFile → LogFile
write_header env f =
    if env.log_file_header
    then record f {
      file = append_content env.header f.file;
      file_length = f.file_length + length env.header;
      bytes_since_flush = f.bytes_since_flush + length env.header;
    }
    else f

-- The bytes that `fwrite` takes.
abbrev pub stored : Env → List ℕ → List ℕ
stored env message = if env.no_space then take env.taken message else message

-- `posix_fadvise` on the pages of the file that no reader needs
unfoldable pub drop_memory : Env → LogFile → LogFile
drop_memory env f =
    let total = f.file_length / mebibyte * mebibyte - mebibyte in
    if env.drop_log_memory
      && leb (3 * mebibyte) f.file_length
      && leb (2 * mebibyte) (total - f.dropped_mem_length)
    then record f { dropped_mem_length = total }
    else f

unfoldable pub maybe_flush : Env → Bool → LogFile → LogFile
unfolding flush_unlocked drop_memory
maybe_flush env force_flush f =
    if force_flush || leb 1000000 f.bytes_since_flush || leb f.next_flush_time env.timestamp
    then drop_memory env (flush_unlocked env.pid env.timestamp env.logbufsecs f)
    else f

unfoldable pub write_message : Env → Bool → List ℕ → LogFile → LogFile
unfolding maybe_flush
write_message env force_flush message f =
    let file = append_content (stored env message) f.file in
    if f.stop_writing
    then record f { stop_writing = not (leb f.next_flush_time env.timestamp) }
    else if env.no_space && env.stop_logging_if_full_disk
    then record f { file = file; stop_writing = true }
    else maybe_flush env force_flush (record f {
      file = file;
      file_length = f.file_length + length message;
      bytes_since_flush = f.bytes_since_flush + length message;
    })

unfoldable pub roll_over : Env → LogFile → LogFile
unfolding close_file max_log_size
roll_over env f =
    if leb (max_log_size env.max_log_size) (f.file_length / mebibyte) then close_file f else f

-- The write of a message where no file is open
unfoldable pub write_to_new : Env → Bool → List ℕ → LogFile → LogFile
unfolding create_file write_header write_message
write_to_new env force_flush message f =
    let attempt = (f.rollover_attempt + 1) % 2 ^ 32 in
    let (g, created) = create_file env f in
    if attempt == rollover_attempt_frequency
    then (if created then write_message env force_flush message (write_header env g) else g)
    else record f { rollover_attempt = attempt }

abbrev pub is_empty : List ℕ → Bool
is_empty [] = true
is_empty (c ∷ cs) = false

unfoldable pub write_unlocked : Env → Bool → List ℕ → LogFile → LogFile
unfolding discard_file_if_inherited roll_over write_to_new write_message
write_unlocked env force_flush message f =
    let g = roll_over env (discard_file_if_inherited env.pid f) in
    if f.is_selected && is_empty f.base_filename
    then f
    else if is_open g.file
    then write_message env force_flush message g
    else write_to_new env force_flush message g

-- The object that the constructor makes.
abbrev pub created : Bool → List ℕ → LogFile
created is_selected base_filename = record {
  is_selected = is_selected;
  base_filename = base_filename;
  filename_extension = [];
  file = none;
  file_pid = 0;
  bytes_since_flush = 0;
  dropped_mem_length = 0;
  file_length = 0;
  rollover_attempt = rollover_attempt_frequency - 1;
  next_flush_time = 0;
  stop_writing = false;
  closed = [];
  abandoned = [];
}

-- The operations, by any process at any time.
pub data Step : LogFile → LogFile → Type 0 where
  writes :
      (env : Env) (force_flush : Bool) (message : List ℕ) (f : LogFile)
      → Step f (write_unlocked env force_flush message f)
  flushes : (pid now logbufsecs : ℕ) (f : LogFile) → Step f (flush_unlocked pid now logbufsecs f)
  sets_basename : (pid : ℕ) (basename : List ℕ) (f : LogFile) → Step f (set_basename pid basename f)
  sets_extension : (pid : ℕ) (ext : List ℕ) (f : LogFile) → Step f (set_extension pid ext f)
  stop_writing_changes : (stop : Bool) (f : LogFile) → Step f (record f { stop_writing = stop })

pub data Reachable : LogFile → Type 0 where
  start :
      (is_selected : Bool) (base_filename : List ℕ) → Reachable (created is_selected base_filename)
  step : {f g : LogFile} → Reachable f → Step f g → Reachable g
