-- ===== src/LogFile/Selected.antt =====
-- logging.cc: how the file of a base name that was selected is created.
use ng_log.Prelude.{
  ℕ, ◌/◌, ◌%◌, ◌+◌, ◌^◌, ◌≡◌, ◌≤◌, ◌<◌, refl, sym, ap, ◌∙◌, Bool, true, false, List, ◌++◌, Option,
  none, some, arith, ◌==◌, if◌then◌else◌, inl, inr, Bool-cases, if-true,
}
use mathlib.Core.Path.{subst}
use ng_log.LogFile.File.{LogFile, Env, mebibyte, max_log_size, make_log_filename}
use ng_log.LogFile.Opening.{
  existing_size, size_or, reaches_limit, truncate_file, found_content, is_refused, create_logfile,
  create_file,
}
use ng_log.LogFile.Writing.{append_content, write_header, write_message, write_to_new}
use ng_log.LogFile.Appends.{write_message-Appended}
use ng_log.LogFile.Creation.{header_text, write_header-Headed}

pub max_log_size_pos : (flag : ℕ) → 1 ≤ max_log_size flag
unfolding max_log_size
max_log_size_pos flag = ground arith

size_or-small :
    (limit file_length : ℕ) (status : Option ℕ)
    → file_length / mebibyte < limit
    → reaches_limit limit status ≡ false
    → size_or file_length status / mebibyte < limit
size_or-small limit file_length none small h = small
size_or-small limit file_length (some size) small h = ground (arith, h)

-- A file that was created is below the limit, if the length that the object had is.
create_logfile-small :
    (env : Env) (name : List ℕ) (f : LogFile)
    → f.file_length / mebibyte < max_log_size env.max_log_size
    → (create_logfile env name f).1 ≡ true
    → (create_logfile env name f).0.file_length / mebibyte < max_log_size env.max_log_size
unfolding create_logfile truncate_file
create_logfile-small env name f small =
    let limit = max_log_size env.max_log_size in
    elim (Bool-cases (is_refused env name)) [
      | inl q ↦ rw q (λ h. cc)
      | inr q ↦ rw q (elim (Bool-cases (env.creation name).attaches) [
        | inr a ↦ rw a (λ h. cc)
        | inl a ↦ rw a (elim (Bool-cases (reaches_limit limit (existing_size env name))) [
          | inl t ↦ rw t (λ h. omega (arith, max_log_size_pos env.max_log_size))
          | inr t ↦ rw t (λ h. size_or-small limit f.file_length (existing_size env name) small t)
        ])
      ])
    ]

create_file-selected :
    (env : Env) (f : LogFile)
    → f.is_selected ≡ true
    → create_file env f
      ≡ create_logfile env
          (make_log_filename f.base_filename env f)
          (record f { rollover_attempt = 0; file_pid = env.pid })
unfolding create_file
create_file-selected env f selected = if-true _ _ selected

pub create_file-small :
    (env : Env) (f : LogFile)
    → f.is_selected ≡ true
    → f.file_length / mebibyte < max_log_size env.max_log_size
    → (create_file env f).1 ≡ true
    → (create_file env f).0.file_length / mebibyte < max_log_size env.max_log_size
create_file-small env f selected small =
    let limit = max_log_size env.max_log_size in
    subst (λ (r : LogFile × Bool). r.1 ≡ true → r.0.file_length / mebibyte < limit)
      (sym (create_file-selected env f selected))
      (create_logfile-small env (make_log_filename f.base_filename env f)
        (record f { rollover_attempt = 0; file_pid = env.pid }) small)

-- What an attempt that fails leaves of an object without a file.
pub record Failed (f g : LogFile) : Type 0 where
  pub is_selected : g.is_selected ≡ f.is_selected
  pub base : g.base_filename ≡ f.base_filename
  pub extension : g.filename_extension ≡ f.filename_extension
  pub attempts : g.rollover_attempt ≡ 0
  pub stop : g.stop_writing ≡ f.stop_writing
  pub file : g.file ≡ none

create_logfile-Failed :
    (env : Env) (name : List ℕ) (f : LogFile)
    → f.file ≡ none
    → f.rollover_attempt ≡ 0
    → (create_logfile env name f).1 ≡ false
    → Failed f (create_logfile env name f).0
unfolding create_logfile
create_logfile-Failed env name f none_open zero_attempts = elim (Bool-cases (is_refused env name)) [
  | inl q ↦ rw q (λ h. record {
    is_selected = refl;
    base = refl;
    extension = refl;
    attempts = zero_attempts;
    stop = refl;
    file = none_open;
  })
  | inr q ↦ rw q (elim (Bool-cases (env.creation name).attaches) [
    | inl a ↦ rw a (λ h. cc)
    | inr a ↦ rw a (λ h. record {
      is_selected = refl;
      base = refl;
      extension = refl;
      attempts = zero_attempts;
      stop = refl;
      file = refl;
    })
  ])
]

pub create_file-Failed :
    (env : Env) (f : LogFile)
    → f.is_selected ≡ true
    → f.file ≡ none
    → (create_file env f).1 ≡ false
    → Failed f (create_file env f).0
create_file-Failed env f selected none_open =
    let g = record f { rollover_attempt = 0; file_pid = env.pid } in
    subst (λ (r : LogFile × Bool). r.1 ≡ false → Failed f r.0)
      (sym (create_file-selected env f selected))
      (λ h.
        let failed =
          create_logfile-Failed env (make_log_filename f.base_filename env f) g none_open refl h in
        record {
          is_selected = failed.is_selected;
          base = failed.base;
          extension = failed.extension;
          attempts = failed.attempts;
          stop = failed.stop;
          file = failed.file;
        })

-- The write that creates the file of a base name.
pub new_file-content :
    (env : Env) (force_flush : Bool) (message : List ℕ) (f : LogFile)
    → f.is_selected ≡ true
    → f.rollover_attempt ≡ 31
    → f.stop_writing ≡ false
    → is_refused env (make_log_filename f.base_filename env f) ≡ false
    → (env.creation (make_log_filename f.base_filename env f)).attaches ≡ true
    → env.no_space ≡ false
    → (write_to_new env force_flush message f).file
      ≡ some (record {
        name = make_log_filename f.base_filename env f;
        content =
            (found_content env (make_log_filename f.base_filename env f) ++ header_text env)
            ++ message;
      })
unfolding write_to_new create_file create_logfile
new_file-content env force_flush message f selected attempts running accepted attaches space =
    let name = make_log_filename f.base_filename env f in
    let r = create_logfile env name (record f { rollover_attempt = 0; file_pid = env.pid }) in
    let g = r.0 in
    let made : create_file env f ≡ r = if-true _ _ selected in
    let file : g.file ≡ some (record { name = name; content = found_content env name }) =
      rw accepted (rw attaches refl) in
    let created : r.1 ≡ true = rw accepted (rw attaches refl) in
    let pid : g.file_pid ≡ env.pid = rw accepted (rw attaches refl) in
    let stop : g.stop_writing ≡ f.stop_writing = rw accepted (rw attaches refl) in
    let headed = write_header-Headed env name (found_content env name) g file in
    let added =
      write_message-Appended env force_flush message (write_header env g) (headed.pid ∙ pid)
        (headed.stop ∙ stop ∙ running) space in
    let due : (f.rollover_attempt + 1) % 2 ^ 32 == 32 ≡ true = ground arith in
    ap (λ (x : LogFile). x.file)
      (if-true _ _ due
        ∙ ap
            (λ (r : LogFile × Bool).
              if r.1 then write_message env force_flush message (write_header env r.0) else r.0)
            made
        ∙ if-true _ _ created)
    ∙ added.file
    ∙ ap (append_content message) headed.file
