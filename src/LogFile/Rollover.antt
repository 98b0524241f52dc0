-- ===== src/LogFile/Rollover.antt =====
-- logging.cc: where `LogFileObject::Write` puts a message.
use ng_log.Prelude.{
  ℕ, ◌+◌, ◌*◌, ◌/◌, ◌≡◌, ◌≤◌, refl, sym, ap, ◌∙◌, Bool, true, false, not, ◌&&◌, List, arith, leb,
  ◌==◌, if◌then◌else◌, length, inl, inr, Bool-cases, Option-cases, ==_iff, if-true, if-false,
}
use mathlib.Core.Path.{subst}
use ng_log.LogFile.File.{
  LogFile, Env, mebibyte, max_log_size, close_file, is_open, discard_file_if_inherited,
}
use ng_log.LogFile.Writing.{write_message, roll_over, write_to_new, is_empty, write_unlocked}
use ng_log.LogFile.Creation.{header_text}
use ng_log.LogFile.Placement.{
  NotCreated, Written-because, Placed-because, dropped, history, Written, Placed,
  write_to_new-Placed, write_to_open-Placed, write_to_closed-Placed, Placed-to, true-false,
}

own_pid_lem :
    (f : LogFile) (pid : ℕ)
    → (is_open f.file && not (f.file_pid == pid)) ≡ false
    → is_open f.file ≡ true
    → f.file_pid ≡ pid
own_pid_lem f pid own o = elim (Bool-cases (f.file_pid == pid)) [
  | inl e ↦ (==_iff f.file_pid pid).0 e
  | inr e ↦ absurd (true-false (sym (ap (λ b. b && not (f.file_pid == pid)) o ∙ ap not e) ∙ own))
]

-- Why a message with a base name is dropped: behind the rollover no file is open, and none is created.
pub record Unopened (env : Env) (f : LogFile) : Type 0 where
  pub closed : is_open (roll_over env f).file ≡ false
  pub not_created : NotCreated env (roll_over env f)

-- Why a message is dropped.
pub data Unwritten (env : Env) (f : LogFile) : Type 0 where
  unnamed : (f.is_selected && is_empty f.base_filename) ≡ true → Unwritten env f
  unopened : Unopened env f → Unwritten env f

-- The parts of a write, whose functions stay shut.
place_message : Env → Bool → List ℕ → LogFile → LogFile
place_message env force_flush message g =
    if is_open g.file
    then write_message env force_flush message g
    else write_to_new env force_flush message g

Unopened-after :
    {env : Env} {f g : LogFile}
    → roll_over env f ≡ g
    → is_open g.file ≡ false
    → NotCreated env g
    → Unopened env f
Unopened-after {env} rolled closed r = record {
  closed = ap (λ (x : LogFile). is_open x.file) rolled ∙ closed;
  not_created = subst (λ (x : LogFile). NotCreated env x) (sym rolled) r;
}

place_message-Placed :
    (env : Env) (force_flush : Bool) (message : List ℕ) (f : LogFile)
    → (is_open f.file && not (f.file_pid == env.pid)) ≡ false
    → f.stop_writing ≡ false
    → env.no_space ≡ false
    → Placed
        (Unopened env f)
        env
        message
        f
        (place_message env force_flush message (roll_over env f))
unfolding place_message roll_over close_file
place_message-Placed env force_flush message f own running space =
    elim (Bool-cases (leb (max_log_size env.max_log_size) (f.file_length / mebibyte))) [
      | inl e ↦ Placed-to (sym (ap (place_message env force_flush message) (if-true _ _ e))) (
          Placed-because (Unopened-after (if-true _ _ e) refl)
            (write_to_closed-Placed env force_flush message f running space))
      | inr e ↦
          Placed-to (sym (ap (place_message env force_flush message) (if-false _ _ e)))
            (elim (Option-cases f.file) [
              | inl q ↦
                  let branch =
                    if-false (write_message env force_flush message f)
                      (write_to_new env force_flush message f) (ap is_open q) in
                  Placed-to (sym branch) (
                    Placed-because (Unopened-after (if-false _ _ e) (ap is_open q)) (
                      write_to_new-Placed env force_flush message f q (ground arith) running space))
              | inr (file, q) ↦
                  let branch =
                    if-true (write_message env force_flush message f)
                      (write_to_new env force_flush message f) (ap is_open q) in
                  let own_pid : f.file_pid ≡ env.pid = own_pid_lem f env.pid own (ap is_open q) in
                  Placed-to (sym branch) (
                    write_to_open-Placed (Unopened env f) env force_flush message f file q own_pid
                      (ground arith) running space)
            ])
    ]

write-placed :
    (env : Env) (force_flush : Bool) (message : List ℕ) (f : LogFile)
    → (is_open f.file && not (f.file_pid == env.pid)) ≡ false
    → (f.is_selected && is_empty f.base_filename) ≡ false
    → write_unlocked env force_flush message f
      ≡ place_message env force_flush message (roll_over env f)
unfolding write_unlocked place_message discard_file_if_inherited
write-placed env force_flush message f own named =
    if-false _ _ named
    ∙ ap (λ g. place_message env force_flush message (roll_over env g)) (if-false _ f own)

-- A write by a process that did not inherit the file, where the log has not stopped writing and the
-- disk has room, puts the whole message behind the bytes of the open file, or into a file that it
-- opens, behind the header, if there is one, and what was found in the file: nothing, unless it was
-- there, has no timestamp in its name and is below the maximal size. It drops the message only if a
-- base name was selected and is empty, or if no file is open behind the rollover and either 32
-- messages have not passed or the file cannot be created. The other files are kept as they were
-- when they were closed, whatever a later truncation does to a file of the same name.
pub write-Written :
    (env : Env) (force_flush : Bool) (message : List ℕ) (f : LogFile)
    → (is_open f.file && not (f.file_pid == env.pid)) ≡ false
    → f.stop_writing ≡ false
    → env.no_space ≡ false
    → Written
        (Unwritten env f)
        env
        message
        (history f)
        (history (write_unlocked env force_flush message f))
unfolding write_unlocked
write-Written env force_flush message f own running space =
    elim (Bool-cases (f.is_selected && is_empty f.base_filename)) [
      | inl e ↦ dropped (unnamed e) (ap history (if-true f _ e))
      | inr e ↦
          Written-because unopened
            (Placed-to (sym (write-placed env force_flush message f own e))
              (place_message-Placed env force_flush message f own running space)).written
    ]

-- Where a base name that is not empty was selected, a write by a process that did not inherit the
-- file, where the log has not stopped writing and the disk has room, leaves file_length_ at
-- --max_log_size MiB at most, or the 1 or the 4095 that limit it, and a header and the message, if
-- it leaves a file open; a file that was there is counted with the size that StatPath found.
pub write-size :
    (env : Env) (force_flush : Bool) (message : List ℕ) (f : LogFile)
    → f.is_selected ≡ true
    → is_empty f.base_filename ≡ false
    → (is_open f.file && not (f.file_pid == env.pid)) ≡ false
    → f.stop_writing ≡ false
    → env.no_space ≡ false
    → is_open (write_unlocked env force_flush message f).file ≡ true
    → (write_unlocked env force_flush message f).file_length
      ≤ max_log_size env.max_log_size * mebibyte + length (header_text env) + length message
write-size env force_flush message f selected base own running space =
    let named = ap (λ b. b && is_empty f.base_filename) selected ∙ base in
    (Placed-to (sym (write-placed env force_flush message f own named))
        (place_message-Placed env force_flush message f own running space)).size
      selected

-- Such a write does not stop the log.
pub write-running :
    (env : Env) (force_flush : Bool) (message : List ℕ) (f : LogFile)
    → (is_open f.file && not (f.file_pid == env.pid)) ≡ false
    → f.stop_writing ≡ false
    → env.no_space ≡ false
    → (write_unlocked env force_flush message f).stop_writing ≡ false
unfolding write_unlocked
write-running env force_flush message f own running space =
    elim (Bool-cases (f.is_selected && is_empty f.base_filename)) [
      | inl e ↦ ap (λ (g : LogFile). g.stop_writing) (if-true f _ e) ∙ running
      | inr e ↦
          (Placed-to (sym (write-placed env force_flush message f own e))
            (place_message-Placed env force_flush message f own running space)).running
    ]
