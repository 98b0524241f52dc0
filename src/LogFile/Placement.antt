-- ===== src/LogFile/Placement.antt =====
-- logging.cc: a message that is put behind the last log file, or into a new one.
use ng_log.Prelude.{
  ℕ, ◌+◌, ◌*◌, ◌/◌, ◌%◌, ◌^◌, ◌≡◌, ◌≤◌, ◌<◌, refl, sym, ap, ◌∙◌, Bool, true, false, List, [], ◌∷◌,
  ◌++◌, none, some, arith, ◌==◌, length, inl, inr, Bool-cases,
}
use mathlib.Core.List.{append-nil}
use mathlib.Core.Path.{subst}
use ng_log.LogFile.File.{
  rollover_attempt_frequency, File, LogFile, Env, mebibyte, max_log_size, close_file, file_list,
  is_open,
}
use ng_log.LogFile.Opening.{found_content, create_file}
use ng_log.LogFile.Writing.{append_content, write_header, write_message, write_to_new}
use ng_log.LogFile.Appends.{write_message-Appended}
use ng_log.LogFile.Creation.{header_text, create_file-Made, write_header-Headed}
use ng_log.LogFile.Selected.{max_log_size_pos, create_file-small}

-- The files that the object wrote, the last one that may be open.
abbrev pub history : LogFile → List File
history f = f.closed ++ file_list f.file

abbrev pub extend : List ℕ → File → File
extend bytes file = record file { content = file.content ++ bytes }

-- A message that is dropped for a reason, put behind the last file, or put into a file that is
-- opened, behind what was found in it and the header.
pub data Written (reason : Type 0) (env : Env) (message : List ℕ) (before after : List File)
    : Type 0 where
  dropped : reason → after ≡ before → Written reason env message before after
  extended :
      (files : List File) (file : File)
      → before ≡ files ++ (file ∷ [])
      → after ≡ files ++ (extend message file ∷ [])
      → Written reason env message before after
  begun :
      (name : List ℕ)
      → after
        ≡ before
          ++ (record {
            name = name;
            content = (found_content env name ++ header_text env) ++ message;
          }
              ∷ [])
      → Written reason env message before after

-- Where a message went, and the size of the file then; the log does not stop.
pub record Placed (reason : Type 0) (env : Env) (message : List ℕ) (f g : LogFile) : Type 0 where
  pub written : Written reason env message (history f) (history g)
  pub running : g.stop_writing ≡ false
  pub size :
      f.is_selected ≡ true
      → is_open g.file ≡ true
      → g.file_length
        ≤ max_log_size env.max_log_size * mebibyte + length (header_text env) + length message

-- Why no file is created: it is no time for an attempt, or the attempt fails.
pub data NotCreated (env : Env) (f : LogFile) : Type 0 where
  no_attempt :
      (f.rollover_attempt + 1) % 2 ^ 32 == rollover_attempt_frequency ≡ false → NotCreated env f
  no_creation : (create_file env f).1 ≡ false → NotCreated env f

pub true-false : true ≡ false → ⊥
true-false h = cc

created-size :
    (env : Env) (message : List ℕ) (f g h : ℕ)
    → f / mebibyte < max_log_size env.max_log_size
    → g ≡ f + length (header_text env)
    → h ≡ g + length message
    → h ≤ max_log_size env.max_log_size * mebibyte + length (header_text env) + length message
created-size env message f g h small headed added =
    let limit : (f / mebibyte + 1) * mebibyte ≤ max_log_size env.max_log_size * mebibyte =
      omega arith in
    omega arith

pub write_to_new-Placed :
    (env : Env) (force_flush : Bool) (message : List ℕ) (f : LogFile)
    → f.file ≡ none
    → f.file_length / mebibyte < max_log_size env.max_log_size
    → f.stop_writing ≡ false
    → env.no_space ≡ false
    → Placed (NotCreated env f) env message f (write_to_new env force_flush message f)
unfolding write_to_new
write_to_new-Placed env force_flush message f none_open small running space =
    let made = create_file-Made env f none_open in
    let g = (create_file env f).0 in
    elim (Bool-cases ((f.rollover_attempt + 1) % 2 ^ 32 == 32)) [
      | inr e ↦ rw e (record {
        written = dropped (no_attempt e) refl;
        running = running;
        size = λ s o. absurd (true-false (sym o ∙ ap is_open none_open));
      })
      | inl e ↦ rw e (elim (Bool-cases (create_file env f).1) [
        | inr q ↦ rw q (record {
          written = dropped (no_creation q) (
              ap (λ x. x ++ file_list g.file) made.closed
              ∙ ap (λ x. f.closed ++ file_list x) (made.no_file q ∙ sym none_open));
          running = made.stop ∙ running;
          size = λ s o. absurd (true-false (sym o ∙ ap is_open (made.no_file q)));
        })
        | inl q ↦
            let (name, opened) = made.file q in
            let headed = write_header-Headed env name (found_content env name) g opened in
            let added =
              write_message-Appended env force_flush message (write_header env g)
                (headed.pid ∙ made.pid) (headed.stop ∙ made.stop ∙ running) space in
            let new : File = record {
              name = name;
              content = (found_content env name ++ header_text env) ++ message;
            } in
            rw q (record {
              written = begun name (
                  ap
                    (λ x.
                      x
                      ++ file_list
                          (write_message env force_flush message (write_header env g)).file)
                    (added.closed ∙ headed.closed ∙ made.closed)
                  ∙ ap (λ x. f.closed ++ file_list x)
                      (added.file ∙ ap (append_content message) headed.file)
                  ∙ ap (λ x. x ++ (new ∷ [])) (sym (append-nil f.closed))
                  ∙ ap (λ x. (f.closed ++ file_list x) ++ (new ∷ [])) (sym none_open));
              running = added.stop ∙ headed.stop ∙ made.stop ∙ running;
              size = λ s o.
                  created-size env message _ _ _ (create_file-small env f s small q) headed.size
                    added.size;
            })
      ])
    ]

pub write_to_open-Placed :
    (reason : Type 0) (env : Env) (force_flush : Bool) (message : List ℕ) (f : LogFile)
    (file : File)
    → f.file ≡ some file
    → f.file_pid ≡ env.pid
    → f.file_length / mebibyte < max_log_size env.max_log_size
    → f.stop_writing ≡ false
    → env.no_space ≡ false
    → Placed reason env message f (write_message env force_flush message f)
write_to_open-Placed reason env force_flush message f file opened own small running space =
    let added = write_message-Appended env force_flush message f own running space in
    let limit : (f.file_length / mebibyte + 1) * mebibyte
        ≤ max_log_size env.max_log_size * mebibyte =
      omega arith in
    record {
      written = extended f.closed file (ap (λ x. f.closed ++ file_list x) opened) (
          ap (λ x. x ++ file_list (write_message env force_flush message f).file) added.closed
          ∙ ap (λ x. f.closed ++ file_list x) (added.file ∙ ap (append_content message) opened));
      running = added.stop ∙ running;
      size = λ s o. omega (arith, added.size);
    }

Written-from :
    {reason : Type 0} {env : Env} {message : List ℕ} {before before' after : List File}
    → before ≡ before'
    → Written reason env message before after
    → Written reason env message before' after
Written-from {reason} {env} {message} {before} {before'} {after} e w = rw (sym e) w

-- A file that is rolled over is closed with its lines.
pub write_to_closed-Placed :
    (env : Env) (force_flush : Bool) (message : List ℕ) (f : LogFile)
    → f.stop_writing ≡ false
    → env.no_space ≡ false
    → Placed
        (NotCreated env (close_file f))
        env
        message
        f
        (write_to_new env force_flush message (close_file f))
unfolding close_file
write_to_closed-Placed env force_flush message f running space =
    let small : 0 / mebibyte < max_log_size env.max_log_size =
      omega (arith, max_log_size_pos env.max_log_size) in
    let placed =
      write_to_new-Placed env force_flush message (close_file f) refl small running space in
    record {
      written = Written-from (append-nil (history f)) placed.written;
      running = placed.running;
      size = placed.size;
    }

pub Placed-to :
    {reason : Type 0} {env : Env} {message : List ℕ} {f g h : LogFile}
    → g ≡ h
    → Placed reason env message f g
    → Placed reason env message f h
Placed-to {reason} {env} {message} {f} {g} {h} e p =
    subst (λ (x : LogFile). Placed reason env message f x) e p

pub Written-because :
    {reason other : Type 0} {env : Env} {message : List ℕ} {before after : List File}
    → (reason → other)
    → Written reason env message before after
    → Written other env message before after
Written-because f (dropped r e) = dropped (f r) e
Written-because f (extended files file e h) = extended files file e h
Written-because f (begun name e) = begun name e

pub Placed-because :
    {reason other : Type 0} {env : Env} {message : List ℕ} {f g : LogFile}
    → (reason → other)
    → Placed reason env message f g
    → Placed other env message f g
Placed-because because p = record {
  written = Written-because because p.written;
  running = p.running;
  size = p.size;
}
