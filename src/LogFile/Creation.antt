-- ===== src/LogFile/Creation.antt =====
-- logging.cc: how a log file is created.
use ng_log.Prelude.{
  ℕ, ◌+◌, ◌≡◌, refl, sym, ap, ◌∙◌, Bool, true, false, List, [], ◌∷◌, ◌++◌, none, some, arith,
  if◌then◌else◌, length, inl, inr, Bool-cases,
}
use mathlib.Core.List.{append-nil}
use ng_log.LogFile.File.{LogFile, Env, make_log_filename}
use ng_log.LogFile.Opening.{is_refused, found_content, create_logfile, try_bases, create_file}
use ng_log.LogFile.Writing.{append_content, write_header}

-- The text in front of the first message of a file.
abbrev pub header_text : Env → List ℕ
header_text env = if env.log_file_header then env.header else []

-- What creating a file does to an object without one.
pub record Made (env : Env) (f : LogFile) (r : LogFile × Bool) : Type 0 where
  pub closed : r.0.closed ≡ f.closed
  pub pid : r.0.file_pid ≡ env.pid
  pub stop : r.0.stop_writing ≡ f.stop_writing
  pub file :
      r.1 ≡ true
      → (name : List ℕ) × (r.0.file
          ≡ some (record { name = name; content = found_content env name }))
  pub no_file : r.1 ≡ false → r.0.file ≡ none

create_logfile-Made :
    (env : Env) (name : List ℕ) (f : LogFile)
    → f.file_pid ≡ env.pid
    → f.file ≡ none
    → Made env f (create_logfile env name f)
unfolding create_logfile
create_logfile-Made env name f e none_open = elim (Bool-cases (is_refused env name)) [
  | inl q ↦
      rw q
        (record { closed = refl; pid = e; stop = refl; file = λ h. cc; no_file = λ h. none_open })
  | inr q ↦ rw q (elim (Bool-cases (env.creation name).attaches) [
    | inl a ↦ rw a (record {
      closed = refl;
      pid = e;
      stop = refl;
      file = λ h. (name, refl);
      no_file = λ h. cc;
    })
    | inr a ↦
        rw a (record { closed = refl; pid = e; stop = refl; file = λ h. cc; no_file = λ h. refl })
  ])
]

Made-from :
    (env : Env) (f g : LogFile) (r : LogFile × Bool)
    → g.closed ≡ f.closed
    → g.stop_writing ≡ f.stop_writing
    → Made env g r
    → Made env f r
Made-from env f g r closed stop made = record {
  closed = made.closed ∙ closed;
  pid = made.pid;
  stop = made.stop ∙ stop;
  file = made.file;
  no_file = made.no_file;
}

try_bases-Made :
    (env : Env) (bases : List (List ℕ)) (f : LogFile)
    → f.file_pid ≡ env.pid
    → f.file ≡ none
    → Made env f (try_bases env bases f)
unfolding try_bases
try_bases-Made env [] f e none_open = record {
  closed = refl;
  pid = e;
  stop = refl;
  file = λ h. cc;
  no_file = λ h. none_open;
}
try_bases-Made env (base ∷ bases) f e none_open =
    let g = record f { base_filename = base } in
    let name = make_log_filename base env g in
    let made = create_logfile-Made env name g e none_open in
    elim (Bool-cases (create_logfile env name g).1) [
      | inl q ↦ rw q (record {
        closed = made.closed;
        pid = made.pid;
        stop = made.stop;
        file = λ h. made.file q;
        no_file = λ h. cc;
      })
      | inr q ↦ rw q (
          Made-from env f (create_logfile env name g).0
            (try_bases env bases (create_logfile env name g).0) made.closed made.stop
            (try_bases-Made env bases (create_logfile env name g).0 made.pid (made.no_file q)))
    ]

if-Made :
    (env : Env) (f : LogFile) {r q : LogFile × Bool} (b : Bool)
    → Made env f r
    → Made env f q
    → Made env f (if b then r else q)
if-Made env f true h k = h
if-Made env f false h k = k

pub create_file-Made : (env : Env) (f : LogFile) → f.file ≡ none → Made env f (create_file env f)
unfolding create_file
create_file-Made env f none_open =
    let name = make_log_filename f.base_filename env f in
    let g = record f { rollover_attempt = 0; file_pid = env.pid } in
    if-Made env f f.is_selected
      (Made-from env f g (create_logfile env name g) refl refl
        (create_logfile-Made env name g refl none_open))
      (Made-from env f g (try_bases env env.default_bases g) refl refl
        (try_bases-Made env env.default_bases g refl none_open))

pub record Headed (env : Env) (name found : List ℕ) (f g : LogFile) : Type 0 where
  pub closed : g.closed ≡ f.closed
  pub pid : g.file_pid ≡ f.file_pid
  pub stop : g.stop_writing ≡ f.stop_writing
  pub size : g.file_length ≡ f.file_length + length (header_text env)
  pub file : g.file ≡ some (record { name = name; content = found ++ header_text env })

pub write_header-Headed :
    (env : Env) (name found : List ℕ) (f : LogFile)
    → f.file ≡ some (record { name = name; content = found })
    → Headed env name found f (write_header env f)
unfolding write_header
write_header-Headed env name found f e = elim (Bool-cases env.log_file_header) [
  | inl q ↦ rw q (record {
    closed = refl;
    pid = refl;
    stop = refl;
    size = refl;
    file = ap (append_content env.header) e;
  })
  | inr q ↦ rw q (record {
    closed = refl;
    pid = refl;
    stop = refl;
    size = omega arith;
    file = e ∙ ap (λ x. some (record { name = name; content = x })) (sym (append-nil found));
  })
]
