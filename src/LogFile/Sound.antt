-- ===== src/LogFile/Sound.antt =====
-- logging.cc: the counts of a log file.
use ng_log.Prelude.{
  same_text, ℕ, ◌+◌, ◌%◌, ◌^◌, ◌≡◌, refl, ◌∙◌, Bool, true, false, ◌&&◌, List, [], ◌∷◌, arith, ◌==◌,
  if◌then◌else◌, inl, inr, Bool-cases,
}
use ng_log.LogFile.File.{
  LogFile, Env, make_log_filename, is_open, discard_file_if_inherited, set_basename, set_extension,
}
use ng_log.LogFile.Opening.{create_logfile, is_refused, try_bases, create_file}
use ng_log.LogFile.Writing.{
  roll_over, write_to_new, is_empty, write_unlocked, Step, writes, flushes, sets_basename,
  sets_extension, stop_writing_changes, Reachable, start, step,
}
use ng_log.LogFile.Kept.{
  Sound, if-Sound, close_file-Sound, discard-Sound, flush-Sound, write_message-Sound,
  write_header-Sound,
}

-- What an attempt to create a file leaves: a file of which no pages were dropped, or none.
record Fresh (r : LogFile × Bool) : Type 0 where
  attempts : r.0.rollover_attempt ≡ 0
  file : is_open r.0.file ≡ r.1
  flushed : r.0.bytes_since_flush ≡ 0
  dropped : r.0.dropped_mem_length ≡ 0

if-Fresh : {r q : LogFile × Bool} (b : Bool) → Fresh r → Fresh q → Fresh (if b then r else q)
if-Fresh true h k = h
if-Fresh false h k = k

create_logfile-Fresh :
    (env : Env) (name : List ℕ) (f : LogFile) → Fresh (f, false) → Fresh (create_logfile env name f)
unfolding create_logfile
create_logfile-Fresh env name f h = elim (Bool-cases (is_refused env name)) [
  | inl e ↦
      rw e
        (record { attempts = h.attempts; file = h.file; flushed = h.flushed; dropped = h.dropped })
  | inr e ↦ rw e (elim (Bool-cases (env.creation name).attaches) [
    | inl q ↦
        rw q
          (record { attempts = h.attempts; file = refl; flushed = h.flushed; dropped = h.dropped })
    | inr q ↦
        rw q
          (record { attempts = h.attempts; file = refl; flushed = h.flushed; dropped = h.dropped })
  ])
]

try_bases-Fresh :
    (env : Env) (bases : List (List ℕ)) (f : LogFile)
    → Fresh (f, false)
    → Fresh (try_bases env bases f)
unfolding try_bases
try_bases-Fresh env [] f h = h
try_bases-Fresh env (base ∷ bases) f h =
    let g = record f { base_filename = base } in
    let name = make_log_filename base env g in
    let made =
      create_logfile-Fresh env name g (record {
        attempts = h.attempts;
        file = h.file;
        flushed = h.flushed;
        dropped = h.dropped;
      }) in
    elim (Bool-cases (create_logfile env name g).1) [
      | inl e ↦ rw e (record {
        attempts = made.attempts;
        file = made.file ∙ e;
        flushed = made.flushed;
        dropped = made.dropped;
      })
      | inr e ↦ rw e (
          try_bases-Fresh env bases (create_logfile env name g).0 (record {
            attempts = made.attempts;
            file = made.file ∙ e;
            flushed = made.flushed;
            dropped = made.dropped;
          }))
    ]

create_file-Fresh :
    (env : Env) (f : LogFile) → is_open f.file ≡ false → Sound f → Fresh (create_file env f)
unfolding create_file
create_file-Fresh env f closed h =
    let (flushed, dropped) = h.no_file closed in
    let ready : Fresh (record f { rollover_attempt = 0; file_pid = env.pid }, false) = record {
      attempts = refl;
      file = closed;
      flushed = flushed;
      dropped = dropped;
    } in
    let name = make_log_filename f.base_filename env f in
    if-Fresh f.is_selected (create_logfile-Fresh env name _ ready)
      (try_bases-Fresh env env.default_bases _ ready)

Fresh-Sound : (r : LogFile × Bool) → Fresh r → Sound r.0
Fresh-Sound r h = record {
  attempts = omega (arith, h.attempts);
  no_file = λ e. (h.flushed, h.dropped);
  dropped = omega (arith, h.dropped);
}

write_to_new-Sound :
    (env : Env) (force_flush : Bool) (message : List ℕ) (f : LogFile)
    → is_open f.file ≡ false
    → Sound f
    → Sound (write_to_new env force_flush message f)
unfolding write_to_new
write_to_new-Sound env force_flush message f closed h =
    let fresh = create_file-Fresh env f closed h in
    elim (Bool-cases ((f.rollover_attempt + 1) % 2 ^ 32 == 32)) [
      | inr e ↦ rw e (record {
        attempts = ground (arith, h.attempts);
        no_file = h.no_file;
        dropped = h.dropped;
      })
      | inl e ↦ rw e (elim (Bool-cases (create_file env f).1) [
        | inr q ↦ rw q (Fresh-Sound (create_file env f) fresh)
        | inl q ↦
            let (sound, opened) =
              write_header-Sound env (create_file env f).0 (fresh.file ∙ q)
                (Fresh-Sound (create_file env f) fresh) in
            rw q (write_message-Sound env force_flush message _ opened sound)
      ])
    ]

write-Sound :
    (env : Env) (force_flush : Bool) (message : List ℕ) (f : LogFile)
    → Sound f
    → Sound (write_unlocked env force_flush message f)
unfolding write_unlocked roll_over
write-Sound env force_flush message f h =
    let g = roll_over env (discard_file_if_inherited env.pid f) in
    let sound =
      if-Sound _ (close_file-Sound (discard_file_if_inherited env.pid f))
        (discard-Sound env.pid f h) in
    elim (Bool-cases (f.is_selected && is_empty f.base_filename)) [
      | inl e ↦ rw e h
      | inr e ↦ rw e (elim (Bool-cases (is_open g.file)) [
        | inl q ↦ rw q (write_message-Sound env force_flush message g q sound)
        | inr q ↦ rw q (write_to_new-Sound env force_flush message g q sound)
      ])
    ]

pub Step-Sound : {f g : LogFile} → Step f g → Sound f → Sound g
unfolding set_basename set_extension
Step-Sound (writes env force_flush message f) h = write-Sound env force_flush message f h
Step-Sound (flushes pid now logbufsecs f) h = flush-Sound pid now logbufsecs f h
Step-Sound (sets_basename pid basename f) h =
    let g = record f { is_selected = true } in
    let closed = close_file-Sound (discard_file_if_inherited pid g) in
    elim (Bool-cases (same_text f.base_filename basename)) [
      | inl e ↦ rw e (record { attempts = h.attempts; no_file = h.no_file; dropped = h.dropped })
      | inr e ↦ rw e (record {
        attempts = closed.attempts;
        no_file = closed.no_file;
        dropped = closed.dropped;
      })
    ]
Step-Sound (sets_extension pid ext f) h =
    let closed = close_file-Sound (discard_file_if_inherited pid f) in
    elim (Bool-cases (same_text f.filename_extension ext)) [
      | inl e ↦ rw e h
      | inr e ↦ rw e (record {
        attempts = closed.attempts;
        no_file = closed.no_file;
        dropped = closed.dropped;
      })
    ]
Step-Sound (stop_writing_changes stop f) h = record {
  attempts = h.attempts;
  no_file = h.no_file;
  dropped = h.dropped;
}

-- In every run the attempts to roll over stay below their frequency, a log without an open file has
-- no bytes to flush and no dropped memory, and the memory that was dropped ends at least a mebibyte
-- in front of the last whole one.
pub Reachable-Sound : {f : LogFile} → Reachable f → Sound f
Reachable-Sound (start is_selected base_filename) = record {
  attempts = omega arith;
  no_file = λ e. (refl, refl);
  dropped = omega arith;
}
Reachable-Sound (step run s) = Step-Sound s (Reachable-Sound run)
