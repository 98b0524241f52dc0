-- ===== src/LogFile/Opening.antt =====
-- logging.cc: how `LogFileObject` opens a file, with `CreateLogfile`.
use ng_log.Prelude.{
  ℕ, ◌/◌, Bool, true, false, not, ◌&&◌, ◌||◌, List, [], ◌∷◌, Option, none, some, leb, if◌then◌else◌,
}
use ng_log.LogFile.File.{LogFile, Env, mebibyte, max_log_size, make_log_filename}

abbrev pub open_file : List ℕ → List ℕ → LogFile → LogFile
open_file name content f = record f { file = some (record { name = name; content = content }) }

-- The size of a file that may be there, which is asked for only without timestamps.
abbrev pub existing_size : Env → List ℕ → Option ℕ
existing_size env name = if env.timestamp_in_logfile_name then none else (env.creation name).status

abbrev pub size_or : ℕ → Option ℕ → ℕ
size_or file_length none = file_length
size_or file_length (some size) = size

abbrev pub reaches_limit : ℕ → Option ℕ → Bool
reaches_limit limit none = false
reaches_limit limit (some size) = leb limit (size / mebibyte)

-- Whether the file is truncated
unfoldable pub truncate_file : Env → List ℕ → Bool
unfolding max_log_size
truncate_file env name = reaches_limit (max_log_size env.max_log_size) (existing_size env name)

-- The bytes that a file has when it is opened.
unfoldable pub found_content : Env → List ℕ → List ℕ
unfolding truncate_file
found_content env name =
    if env.timestamp_in_logfile_name || truncate_file env name
    then []
    else (env.creation name).content

-- Whether the file is not opened, not locked, or has to be truncated and is not.
unfoldable pub is_refused : Env → List ℕ → Bool
unfolding truncate_file
is_refused env name =
    let a = env.creation name in
    not a.opens || not a.locks || (truncate_file env name && not a.truncates)

-- `CreateLogfile`, without the links to the file
unfoldable pub create_logfile : Env → List ℕ → LogFile → LogFile × Bool
unfolding truncate_file found_content is_refused
create_logfile env name f =
    let g = record f { file_length = size_or f.file_length (existing_size env name) } in
    let h = record g { file_length = if truncate_file env name then 0 else g.file_length } in
    if is_refused env name
    then (g, false)
    else if (env.creation name).attaches
    then (open_file name (found_content env name) h, true)
    else (record h { file = none }, false)

unfoldable pub try_bases : Env → List (List ℕ) → LogFile → LogFile × Bool
unfolding make_log_filename create_logfile
try_bases env [] f = (f, false)
try_bases env (base ∷ bases) f =
    let g = record f { base_filename = base } in
    let (h, created) = create_logfile env (make_log_filename base env g) g in
    let rest = try_bases env bases h in if created then (h, true) else rest

-- A file for the messages, and whether there is one
unfoldable pub create_file : Env → LogFile → LogFile × Bool
unfolding make_log_filename create_logfile try_bases
create_file env f =
    let g = record f { rollover_attempt = 0; file_pid = env.pid } in
    if f.is_selected
    then create_logfile env (make_log_filename f.base_filename env f) g
    else try_bases env env.default_bases g
