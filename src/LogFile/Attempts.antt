-- ===== src/LogFile/Attempts.antt =====
-- logging.cc: how often `LogFileObject::Write` tries to create a file.
use ng_log.Prelude.{
  ℕ, ◌+◌, ◌/◌, ◌%◌, ◌^◌, ◌≡◌, ◌<◌, refl, ap, ◌∙◌, Bool, true, false, not, ◌&&◌, List, [], ◌∷◌, ◌++◌,
  none, some, arith, leb, ◌==◌, if◌then◌else◌, length, if-false, if-true,
}
use ng_log.LogFile.File.{
  LogFile, Env, mebibyte, max_log_size, make_log_filename, is_open, discard_file_if_inherited,
  rollover_attempt_frequency,
}
use ng_log.LogFile.Opening.{found_content, is_refused, create_file}
use ng_log.LogFile.Writing.{write_message, roll_over, write_to_new, is_empty, write_unlocked}
use ng_log.LogFile.Creation.{header_text}
use ng_log.LogFile.Selected.{create_file-Failed, new_file-content}

-- A write where no file is open.
write-no_file :
    (env : Env) (force_flush : Bool) (message : List ℕ) (f : LogFile)
    → f.file ≡ none
    → f.file_length / mebibyte < max_log_size env.max_log_size
    → (f.is_selected && is_empty f.base_filename) ≡ false
    → write_unlocked env force_flush message f ≡ write_to_new env force_flush message f
unfolding write_unlocked discard_file_if_inherited roll_over
write-no_file env force_flush message f closed below named =
    let d = discard_file_if_inherited env.pid f in
    let kept : d ≡ f = if-false _ f (ap (λ o. is_open o && not (f.file_pid == env.pid)) closed) in
    let small : leb (max_log_size env.max_log_size) (f.file_length / mebibyte) ≡ false =
      ground arith in
    let rolled : roll_over env d ≡ f = ap (roll_over env) kept ∙ if-false _ f small in
    if-false _ _ named
    ∙ ap
        (λ g.
          if is_open g.file
          then write_message env force_flush message g
          else write_to_new env force_flush message g)
        rolled
    ∙ if-false _ _ (ap is_open closed)

-- A message that is dropped without an attempt.
write-quiet :
    (env : Env) (force_flush : Bool) (message : List ℕ) (f : LogFile)
    → f.file ≡ none
    → f.file_length / mebibyte < max_log_size env.max_log_size
    → (f.is_selected && is_empty f.base_filename) ≡ false
    → f.rollover_attempt + 1 < rollover_attempt_frequency
    → write_unlocked env force_flush message f
      ≡ record f { rollover_attempt = f.rollover_attempt + 1 }
unfolding write_to_new
write-quiet env force_flush message f closed below named early =
    let attempt : (f.rollover_attempt + 1) % 2 ^ 32 ≡ f.rollover_attempt + 1 = omega arith in
    let not_yet : (f.rollover_attempt + 1) % 2 ^ 32 == rollover_attempt_frequency ≡ false =
      ground arith in
    write-no_file env force_flush message f closed below named
    ∙ if-false _ _ not_yet
    ∙ ap (λ n. record f { rollover_attempt = n }) attempt

-- A call of `Write`.
pub record Call : Type 0 where
  pub env : Env
  pub force_flush : Bool
  pub message : List ℕ

unfoldable pub write_all : List Call → LogFile → LogFile
write_all [] f = f
write_all (c ∷ calls) f = write_all calls (write_unlocked c.env c.force_flush c.message f)

write_all-append :
    (calls more : List Call) (f : LogFile)
    → write_all (calls ++ more) f ≡ write_all more (write_all calls f)
unfolding write_all
write_all-append [] more f = refl
write_all-append (c ∷ calls) more f =
    write_all-append calls more (write_unlocked c.env c.force_flush c.message f)

-- The length that a failed attempt leaves is below the limit of each call.
abbrev pub AllBelow : ℕ → List Call → Type 0
AllBelow file_length [] = Unit {0}
AllBelow file_length (c ∷ calls) =
    (file_length / mebibyte < max_log_size c.env.max_log_size) × AllBelow file_length calls

write_all-quiet :
    (calls : List Call) (f : LogFile)
    → f.file ≡ none
    → AllBelow f.file_length calls
    → (f.is_selected && is_empty f.base_filename) ≡ false
    → f.rollover_attempt + length calls < rollover_attempt_frequency
    → write_all calls f ≡ record f { rollover_attempt = f.rollover_attempt + length calls }
unfolding write_all
write_all-quiet [] f closed below named early =
    ap (λ n. record f { rollover_attempt = n }) {x = f.rollover_attempt} (omega arith)
write_all-quiet (c ∷ calls) f closed below named early =
    let g = record f { rollover_attempt = f.rollover_attempt + 1 } in
    ap (write_all calls)
      (write-quiet c.env c.force_flush c.message f closed below.0 named (omega arith))
    ∙ write_all-quiet calls g closed below.1 named (omega arith)
    ∙ ap (λ n. record f { rollover_attempt = n }) {x = f.rollover_attempt + 1 + length calls}
        (omega arith)

-- A write that tries to create a file and fails.
write-failed :
    (env : Env) (force_flush : Bool) (message : List ℕ) (f : LogFile)
    → f.file ≡ none
    → f.file_length / mebibyte < max_log_size env.max_log_size
    → (f.is_selected && is_empty f.base_filename) ≡ false
    → f.rollover_attempt ≡ 31
    → (create_file env f).1 ≡ false
    → write_unlocked env force_flush message f ≡ (create_file env f).0
unfolding write_to_new
write-failed env force_flush message f closed below named attempts failed =
    let due : (f.rollover_attempt + 1) % 2 ^ 32 == rollover_attempt_frequency ≡ true =
      ground arith in
    write-no_file env force_flush message f closed below named
    ∙ if-true _ _ due
    ∙ if-false _ _ failed

-- A base name that is not empty was selected, no file is open, file_length_ is below the maximal
-- size, and the log has not stopped writing. If a write that is due to create a file fails to
-- create it, the next 31 writes drop their messages without another attempt, provided that the
-- file_length_ that the failed attempt leaves is below the maximal size. The write behind them puts
-- its message into the file, behind the header and what was found in the file, if the file can be
-- created then and the disk has room.
pub write_all-attempt :
    (first : Call) (calls : List Call) (last : Call) (f : LogFile)
    → f.file ≡ none
    → f.file_length / mebibyte < max_log_size first.env.max_log_size
    → f.is_selected ≡ true
    → is_empty f.base_filename ≡ false
    → f.rollover_attempt ≡ 31
    → f.stop_writing ≡ false
    → (create_file first.env f).1 ≡ false
    → length calls ≡ 31
    → AllBelow (create_file first.env f).0.file_length (last ∷ calls)
    → is_refused last.env (make_log_filename f.base_filename last.env f) ≡ false
    → (last.env.creation (make_log_filename f.base_filename last.env f)).attaches ≡ true
    → last.env.no_space ≡ false
    → (write_all (first ∷ calls) f ≡ record (create_file first.env f).0 { rollover_attempt = 31 })
      × ((write_all ((first ∷ calls) ++ (last ∷ [])) f).file
          ≡ some (record {
            name = make_log_filename f.base_filename last.env f;
            content =
                (found_content last.env (make_log_filename f.base_filename last.env f)
                  ++ header_text last.env)
                ++ last.message;
          }))
unfolding write_all make_log_filename
write_all-attempt first calls last f closed start selected base attempts running fails thirty_one
      below accepted attaches space =
    let g = (create_file first.env f).0 in
    let failed = create_file-Failed first.env f selected closed fails in
    let h = record g { rollover_attempt = 31 } in
    let name = make_log_filename f.base_filename last.env f in
    let same : make_log_filename g.base_filename last.env g ≡ name =
      rw (failed.base, failed.extension) refl in
    let named = ap (λ b. b && is_empty f.base_filename) selected ∙ base in
    let named' : (g.is_selected && is_empty g.base_filename) ≡ false =
      rw (failed.is_selected, failed.base) named in
    let quiet : write_all (first ∷ calls) f ≡ h =
      ap (write_all calls)
        (write-failed first.env first.force_flush first.message f closed start named attempts fails)
      ∙ write_all-quiet calls g failed.file below.1 named' (omega (arith, failed.attempts))
      ∙ ap (λ n. record g { rollover_attempt = n }) {x = g.rollover_attempt + length calls}
          (omega (arith, failed.attempts)) in
    (
      quiet,
      ap (λ (x : LogFile). x.file) (write_all-append (first ∷ calls) (last ∷ []) f)
          ∙ ap (λ (x : LogFile). (write_unlocked last.env last.force_flush last.message x).file)
              quiet
          ∙ ap (λ (x : LogFile). x.file)
              (write-no_file last.env last.force_flush last.message h failed.file below.0 named')
          ∙ new_file-content last.env last.force_flush last.message h
              (failed.is_selected ∙ selected) refl (failed.stop ∙ running)
              (ap (is_refused last.env) same ∙ accepted)
              (ap (λ n. (last.env.creation n).attaches) same ∙ attaches) space
          ∙ ap
              (λ n. some (record {
                name = n;
                content = (found_content last.env n ++ header_text last.env) ++ last.message;
              }))
              same,
    )
