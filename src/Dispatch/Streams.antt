-- ===== src/Dispatch/Streams.antt =====
-- logging.cc: what a message writes to the streams.
use ng_log.Prelude.{ℕ, not, ◌&&◌, ◌||◌, List, [], ◌∷◌, Option, none, some, if◌then◌else◌}
use ng_log.LogFile.File.{LogFile}
use ng_log.Dispatch.Outputs.{
  Stream, standard_output, standard_error, Settings, Message, Outputs, is_at_least,
}

-- The warning about logging before the initialization, once.
abbrev pub warning : Settings → Outputs → List (Stream × Option (List ℕ))
warning s o =
    if not o.already_warned_before_init && not s.is_logging_initialized
    then (standard_error, none) ∷ []
    else []

-- The stream that shows a message, if one does.
abbrev pub echo : Settings → Message → List (Stream × Option (List ℕ))
echo s m =
    let severe = is_at_least m.severity s.stderrthreshold in
    if s.logtostdout && not severe
    then (standard_output, some m.text) ∷ []
    else if s.logtostdout
        || s.logtostderr
        || not s.is_logging_initialized
        || severe
        || s.alsologtostderr
    then (standard_error, some m.text) ∷ []
    else []
