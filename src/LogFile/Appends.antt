-- ===== src/LogFile/Appends.antt =====
-- logging.cc: a message that is written to an open log file.
use ng_log.Prelude.{
  ℕ, ◌+◌, ◌-◌, ◌*◌, ◌/◌, ◌≡◌, refl, ap, ◌∙◌, Bool, false, ◌&&◌, ◌||◌, List, leb, length, inl, inr,
  Bool-cases, ==_iff, if-false,
}
use ng_log.LogFile.File.{LogFile, Env, mebibyte, is_open, discard_file_if_inherited, flush_unlocked}
use ng_log.LogFile.Writing.{append_content, stored, drop_memory, maybe_flush, write_message}

-- What a write of its own process leaves of the files.
pub record Same (f g : LogFile) : Type 0 where
  pub file : g.file ≡ f.file
  pub closed : g.closed ≡ f.closed
  pub size : g.file_length ≡ f.file_length
  pub stop : g.stop_writing ≡ f.stop_writing

own_file : (pid : ℕ) (f : LogFile) → f.file_pid ≡ pid → discard_file_if_inherited pid f ≡ f
unfolding discard_file_if_inherited
own_file pid f e = elim (Bool-cases (is_open f.file)) [
  | inl o ↦ rw (o, (==_iff f.file_pid pid).1 e) refl
  | inr o ↦ rw o refl
]

flush-Same :
    (pid now logbufsecs : ℕ) (f : LogFile)
    → f.file_pid ≡ pid
    → Same f (flush_unlocked pid now logbufsecs f)
unfolding flush_unlocked
flush-Same pid now logbufsecs f e = record {
  file = ap (λ (g : LogFile). g.file) (own_file pid f e);
  closed = ap (λ (g : LogFile). g.closed) (own_file pid f e);
  size = ap (λ (g : LogFile). g.file_length) (own_file pid f e);
  stop = ap (λ (g : LogFile). g.stop_writing) (own_file pid f e);
}

drop_memory-Same : (env : Env) (f : LogFile) → Same f (drop_memory env f)
unfolding drop_memory
drop_memory-Same env f =
    elim (Bool-cases (
      env.drop_log_memory
      && leb (3 * mebibyte) f.file_length
      && leb (2 * mebibyte)
          (f.file_length / mebibyte * mebibyte - mebibyte - f.dropped_mem_length))) [
            | inl e ↦ rw e (record { file = refl; closed = refl; size = refl; stop = refl })
            | inr e ↦ rw e (record { file = refl; closed = refl; size = refl; stop = refl })
          ]

maybe_flush-Same :
    (env : Env) (force_flush : Bool) (f : LogFile)
    → f.file_pid ≡ env.pid
    → Same f (maybe_flush env force_flush f)
unfolding maybe_flush
maybe_flush-Same env force_flush f e =
    elim (Bool-cases
      (force_flush || leb 1000000 f.bytes_since_flush || leb f.next_flush_time env.timestamp)) [
        | inr q ↦ rw q (record { file = refl; closed = refl; size = refl; stop = refl })
        | inl q ↦
            let flushed = flush-Same env.pid env.timestamp env.logbufsecs f e in
            let kept =
              drop_memory-Same env (flush_unlocked env.pid env.timestamp env.logbufsecs f) in
            rw q (record {
              file = kept.file ∙ flushed.file;
              closed = kept.closed ∙ flushed.closed;
              size = kept.size ∙ flushed.size;
              stop = kept.stop ∙ flushed.stop;
            })
      ]

-- A message in an open file, with room on the disk.
pub record Appended (message : List ℕ) (f g : LogFile) : Type 0 where
  pub file : g.file ≡ append_content message f.file
  pub closed : g.closed ≡ f.closed
  pub size : g.file_length ≡ f.file_length + length message
  pub stop : g.stop_writing ≡ f.stop_writing

pub write_message-Appended :
    (env : Env) (force_flush : Bool) (message : List ℕ) (f : LogFile)
    → f.file_pid ≡ env.pid
    → f.stop_writing ≡ false
    → env.no_space ≡ false
    → Appended message f (write_message env force_flush message f)
unfolding write_message
write_message-Appended env force_flush message f own running space =
    let g = record f {
      file = append_content (stored env message) f.file;
      file_length = f.file_length + length message;
      bytes_since_flush = f.bytes_since_flush + length message;
    } in
    let same = maybe_flush-Same env force_flush g own in
    let kept = ap (λ b. b && env.stop_logging_if_full_disk) space in
    let branch = if-false _ _ running ∙ if-false _ _ kept in
    record {
      file =
          ap (λ (h : LogFile). h.file) branch
          ∙ same.file
          ∙ ap (λ m. append_content m f.file) (if-false _ _ space);
      closed = ap (λ (h : LogFile). h.closed) branch ∙ same.closed;
      size = ap (λ (h : LogFile). h.file_length) branch ∙ same.size;
      stop = ap (λ (h : LogFile). h.stop_writing) branch ∙ same.stop;
    }
