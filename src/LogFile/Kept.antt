-- ===== src/LogFile/Kept.antt =====
-- logging.cc: the invariant of a log file, and the parts of a write that keep it.
use ng_log.Prelude.{
  ℕ, ◌+◌, ◌-◌, ◌*◌, ◌/◌, ◌≡◌, ◌≤◌, ◌<◌, refl, sym, ◌∙◌, Bool, true, false, not, ◌&&◌, List, Option,
  none, some, arith, leb, ◌==◌, if◌then◌else◌, length, inl, inr, Bool-cases, if-false,
}
use ng_log.LogFile.File.{
  File, LogFile, Env, mebibyte, close_file, is_open, discard_file_if_inherited, flush_unlocked,
}
use ng_log.LogFile.Writing.{
  append_content, write_header, stored, drop_memory, maybe_flush, write_message,
}

true-false : true ≡ false → ⊥
true-false h = cc

-- The bytes whose pages were dropped end at least a mebibyte in front of the end of the file.
pub record Sound (f : LogFile) : Type 0 where
  pub attempts : f.rollover_attempt < 32
  pub no_file : is_open f.file ≡ false → (f.bytes_since_flush ≡ 0) × (f.dropped_mem_length ≡ 0)
  pub dropped : f.dropped_mem_length ≤ f.file_length / mebibyte * mebibyte - mebibyte

pub if-Sound : {f g : LogFile} (b : Bool) → Sound f → Sound g → Sound (if b then f else g)
if-Sound true h k = h
if-Sound false h k = k

pub close_file-Sound : (f : LogFile) → Sound (close_file f)
unfolding close_file
close_file-Sound f = record {
  attempts = omega arith;
  no_file = λ h. (refl, refl);
  dropped = omega arith;
}

pub discard-Sound : (pid : ℕ) (f : LogFile) → Sound f → Sound (discard_file_if_inherited pid f)
unfolding discard_file_if_inherited
discard-Sound pid f h = elim (Bool-cases (is_open f.file && not (f.file_pid == pid))) [
  | inl e ↦
      rw e (record { attempts = omega arith; no_file = λ h. (refl, refl); dropped = omega arith })
  | inr e ↦ rw e h
]

pub flush-Sound :
    (pid now logbufsecs : ℕ) (f : LogFile) → Sound f → Sound (flush_unlocked pid now logbufsecs f)
unfolding flush_unlocked
flush-Sound pid now logbufsecs f h =
    let g = discard-Sound pid f h in
    record {
      attempts = g.attempts;
      no_file = λ e. (if-false _ _ e ∙ (g.no_file e).0, (g.no_file e).1);
      dropped = g.dropped;
    }

-- A flush of an open file leaves none only where it discards the file, whose length is then gone.
flush-length :
    (pid now logbufsecs : ℕ) (f : LogFile)
    → is_open f.file ≡ true
    → is_open (flush_unlocked pid now logbufsecs f).file ≡ false
    → (flush_unlocked pid now logbufsecs f).file_length ≡ 0
unfolding flush_unlocked discard_file_if_inherited
flush-length pid now logbufsecs f o =
    elim (Bool-cases (is_open f.file && not (f.file_pid == pid))) [
      | inl e ↦ rw e (λ h. refl)
      | inr e ↦ rw e (λ h. absurd (true-false (sym o ∙ h)))
    ]

drop_memory-Sound :
    (env : Env) (f : LogFile)
    → (is_open f.file ≡ false → f.file_length ≡ 0)
    → Sound f
    → Sound (drop_memory env f)
unfolding drop_memory
drop_memory-Sound env f empty h =
    elim (Bool-cases (
      env.drop_log_memory
      && leb (3 * mebibyte) f.file_length
      && leb (2 * mebibyte)
          (f.file_length / mebibyte * mebibyte - mebibyte - f.dropped_mem_length))) [
            | inl e ↦ rw e (record {
              attempts = h.attempts;
              no_file = λ closed. absurd (ground (arith, e, empty closed));
              dropped = omega arith;
            })
            | inr e ↦ rw e h
          ]

maybe_flush-Sound :
    (env : Env) (force_flush : Bool) (f : LogFile)
    → is_open f.file ≡ true
    → Sound f
    → Sound (maybe_flush env force_flush f)
unfolding maybe_flush
maybe_flush-Sound env force_flush f o h =
    if-Sound _
      (drop_memory-Sound env _ (flush-length env.pid env.timestamp env.logbufsecs f o)
        (flush-Sound env.pid env.timestamp env.logbufsecs f h))
      h

is_open-append :
    (bytes : List ℕ) (file : Option File) → is_open (append_content bytes file) ≡ is_open file
is_open-append bytes none = refl
is_open-append bytes (some file) = refl

-- More bytes in a file that is open.
grow-Sound :
    (f g : LogFile) (n : ℕ)
    → is_open g.file ≡ true
    → g.rollover_attempt ≡ f.rollover_attempt
    → g.dropped_mem_length ≡ f.dropped_mem_length
    → g.file_length ≡ f.file_length + n
    → Sound f
    → Sound g
grow-Sound f g n o a d l h = record {
  attempts = omega (arith, h.attempts);
  no_file = λ e. absurd (true-false (sym o ∙ e));
  dropped = omega (arith, h.dropped);
}

pub write_message-Sound :
    (env : Env) (force_flush : Bool) (message : List ℕ) (f : LogFile)
    → is_open f.file ≡ true
    → Sound f
    → Sound (write_message env force_flush message f)
unfolding write_message
write_message-Sound env force_flush message f o h =
    let o' = is_open-append (stored env message) f.file ∙ o in
    if-Sound f.stop_writing
      (record { attempts = h.attempts; no_file = h.no_file; dropped = h.dropped })
      (if-Sound (env.no_space && env.stop_logging_if_full_disk)
        (grow-Sound f _ 0 o' refl refl (omega arith) h)
        (maybe_flush-Sound env force_flush _ o'
          (grow-Sound f _ (length message) o' refl refl refl h)))

pub write_header-Sound :
    (env : Env) (f : LogFile)
    → is_open f.file ≡ true
    → Sound f
    → Sound (write_header env f) × (is_open (write_header env f).file ≡ true)
unfolding write_header
write_header-Sound env f o h = elim (Bool-cases env.log_file_header) [
  | inl e ↦
      let o' = is_open-append env.header f.file ∙ o in
      rw e (grow-Sound f _ (length env.header) o' refl refl refl h, o')
  | inr e ↦ rw e (h, o)
]
