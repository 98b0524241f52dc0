-- ===== src/Dispatch/Destinations.antt =====
-- logging.cc: a message goes to the logs of its severity and of the lower ones.
use ng_log.Prelude.{
  ℕ, zero, suc, ◌≡◌, ◌≤◌, ◌<◌, refl, sym, ap, ◌∙◌, inl, inr, Bool, true, false, not, ◌&&◌, ◌||◌,
  List, Option, some, arith, ◌==◌, if-true, if-false, Bool-cases, ==_iff,
}
use mathlib.Core.Path.{subst}
use ng_log.LogFile.File.{LogFile, Env, is_open}
use ng_log.LogFile.Writing.{write_unlocked}
use ng_log.LogFile.Placement.{history, Written}
use ng_log.LogFile.Rollover.{Unwritten, write-Written, write-running}
use ng_log.Dispatch.Outputs.{
  standard_error, Settings, Message, Outputs, fatal, is_above, is_at_least, log_destination, shared,
  put_log, write_log, maybe_log_to_logfile, log_to_logfiles, write_stream, log_to_all_logfiles,
  maybe_log_to_stderr, warn_before_init, write_message, finish_fatal, send_to_log,
}

abbrev pub log_at : ℕ → Outputs → LogFile
log_at i o = log_destination (o.logs i)

-- A log before and behind the write of a message.
abbrev pub Logged : Env → List ℕ → Option LogFile → Option LogFile → Type 0
Logged env text before after =
    Written (Unwritten env (shared false (log_destination before))) env text
      (history (log_destination before)) (history (log_destination after))

-- The logs from zero on of so many severities can be written.
pub record Writable (envs : ℕ → Env) (n : ℕ) (o : Outputs) : Type 0 where
  pub running : o.stop_writing ≡ false
  pub own :
      (i : ℕ)
      → i ≤ n
      → (is_open (log_at i o).file && not ((log_at i o).file_pid == (envs i).pid)) ≡ false
  pub space : (i : ℕ) → i ≤ n → (envs i).no_space ≡ false

-- The log of one severity is written, and no other.
record One (env : Env) (text : List ℕ) (severity : ℕ) (o p : Outputs) : Type 0 where
  written : Logged env text (o.logs severity) (p.logs severity)
  running : p.stop_writing ≡ false
  others : (i : ℕ) → i == severity ≡ false → p.logs i ≡ o.logs i

write_log-One :
    (severity : ℕ) (env : Env) (should_flush : Bool) (text : List ℕ) (o : Outputs)
    → (is_open (log_at severity o).file && not ((log_at severity o).file_pid == env.pid)) ≡ false
    → o.stop_writing ≡ false
    → env.no_space ≡ false
    → One env text severity o (write_log severity env should_flush text o)
unfolding write_log
write_log-One severity env should_flush text o own running space =
    let log = shared o.stop_writing (log_at severity o) in
    let new = write_unlocked env should_flush text log in
    let here : (put_log severity new o).logs severity ≡ some new =
      if-true _ _ ((==_iff severity severity).1 refl) in
    record {
      written =
          subst (λ x. Logged env text (o.logs severity) x) (sym here)
            (subst
              (λ stop.
                Written (Unwritten env (shared stop (log_at severity o))) env text
                  (history (log_at severity o)) (history new))
              running (write-Written env should_flush text log own running space));
      running = write-running env should_flush text log own running space;
      others = λ i e. if-false _ _ e;
    }

-- The logs up to a severity are written, and no other.
record UpTo (envs : ℕ → Env) (text : List ℕ) (severity : ℕ) (o p : Outputs) : Type 0 where
  written : (i : ℕ) → i ≤ severity → Logged (envs i) text (o.logs i) (p.logs i)
  others : (i : ℕ) → severity < i → p.logs i ≡ o.logs i

maybe_log_to_logfile-One :
    (s : Settings) (envs : ℕ → Env) (text : List ℕ) (severity : ℕ) (o : Outputs)
    → Writable envs severity o
    → One (envs severity) text severity o (maybe_log_to_logfile s envs text severity o)
unfolding maybe_log_to_logfile
maybe_log_to_logfile-One s envs text severity o w =
    write_log-One severity (envs severity) (is_above severity s.logbuflevel) text o
      (w.own severity (omega arith)) w.running (w.space severity (omega arith))

Writable-One :
    (envs : ℕ → Env) (text : List ℕ) (severity : ℕ) (o p : Outputs)
    → Writable envs (suc severity) o
    → One (envs (suc severity)) text (suc severity) o p
    → Writable envs severity p
Writable-One envs text severity o p w one =
    let same = λ (i : ℕ) (l : i ≤ severity). sym (one.others i (ground arith)) in
    record {
      running = one.running;
      own = λ i l.
          subst
            (λ x.
              (is_open (log_destination x).file
                && not ((log_destination x).file_pid == (envs i).pid))
              ≡ false)
            (same i l) (w.own i (omega arith));
      space = λ i l. w.space i (omega arith);
    }

UpTo-later :
    (envs : ℕ → Env) (text : List ℕ) (severity : ℕ) (o p q : Outputs)
    → One (envs (suc severity)) text (suc severity) o p
    → UpTo envs text severity p q
    → UpTo envs text (suc severity) o q
UpTo-later envs text severity o p q one rest = record {
  written = λ i l. elim (Bool-cases (i == suc severity)) [
    | inl e ↦
        let here = (==_iff i (suc severity)).0 e in
        subst (λ k. Logged (envs k) text (o.logs k) (q.logs k)) (sym here)
          (subst (λ x. Logged (envs (suc severity)) text (o.logs (suc severity)) x)
            (sym (rest.others (suc severity) (omega arith))) one.written)
    | inr e ↦
        subst (λ x. Logged (envs i) text x (q.logs i)) (one.others i e)
          (rest.written i (ground arith))
  ];
  others = λ i l. rest.others i (omega arith) ∙ one.others i (ground arith);
}

log_to_logfiles-UpTo :
    (s : Settings) (envs : ℕ → Env) (text : List ℕ) (severity : ℕ) (o : Outputs)
    → Writable envs severity o
    → UpTo envs text severity o (log_to_logfiles s envs text severity o)
unfolding log_to_logfiles
log_to_logfiles-UpTo s envs text zero o w =
    let one = maybe_log_to_logfile-One s envs text 0 o w in
    record {
      written = λ i l.
          let here : i ≡ 0 = omega arith in
          subst
            (λ k. Logged (envs k) text (o.logs k) ((maybe_log_to_logfile s envs text 0 o).logs k))
            (sym here) one.written;
      others = λ i l. one.others i (ground arith);
    }
log_to_logfiles-UpTo s envs text (suc severity) o w =
    let one = maybe_log_to_logfile-One s envs text (suc severity) o w in
    let p = maybe_log_to_logfile s envs text (suc severity) o in
    UpTo-later envs text severity o p (log_to_logfiles s envs text severity p) one
      (log_to_logfiles-UpTo s envs text severity p (Writable-One envs text severity o p w one))

and-false : (b c : Bool) → c ≡ true → (b && not c) ≡ false
and-false true c e = ap not e
and-false false c e = refl

warn_before_init-ready :
    (s : Settings) (o : Outputs) → s.is_logging_initialized ≡ true → warn_before_init s o ≡ o
unfolding warn_before_init
warn_before_init-ready s o ready =
    if-false _ _ (and-false (not o.already_warned_before_init) s.is_logging_initialized ready)

maybe_log_to_stderr-logs :
    (s : Settings) (m : Message) (o : Outputs) → (maybe_log_to_stderr s m o).logs ≡ o.logs
unfolding maybe_log_to_stderr write_stream
maybe_log_to_stderr-logs s m o =
    elim (Bool-cases (is_at_least m.severity s.stderrthreshold || s.alsologtostderr)) [
      | inl e ↦ ap (λ (p : Outputs). p.logs) (if-true _ o e)
      | inr e ↦
          ap (λ (p : Outputs). p.logs) (if-false (write_stream standard_error (some m.text) o) o e)
    ]

or-false : (a b : Bool) → (a || b) ≡ false → (a ≡ false) × (b ≡ false)
or-false true b e = (e, cc)
or-false false b e = (refl, e)

write_message-logs :
    (s : Settings) (envs : ℕ → Env) (m : Message) (o : Outputs)
    → s.is_logging_initialized ≡ true
    → (s.logtostderr || s.logtostdout) ≡ false
    → (write_message s envs m o).logs ≡ (log_to_logfiles s envs m.text m.severity o).logs
unfolding write_message log_to_all_logfiles
write_message-logs s envs m o ready files =
    let (no_stderr, no_stdout) = or-false s.logtostderr s.logtostdout files in
    let reaches : (s.logtostderr || s.logtostdout || not s.is_logging_initialized) ≡ false = cc in
    ap (λ (p : Outputs). p.logs) (if-false _ _ reaches)
    ∙ maybe_log_to_stderr-logs s m (log_to_all_logfiles s envs m.severity m.text o)
    ∙ ap (λ (p : Outputs). p.logs) (if-false _ _ no_stdout ∙ if-false _ _ no_stderr)

finish_fatal-goes_on :
    (s : Settings) (envs : ℕ → Env) (m : Message) (o : Outputs)
    → (m.severity == fatal && s.exit_on_dfatal) ≡ false
    → finish_fatal s envs m o ≡ o
unfolding finish_fatal
finish_fatal-goes_on s envs m o goes_on = if-false _ o goes_on

-- What a message that does not end the program does to the logs.
send_to_log-logs :
    (s : Settings) (envs : ℕ → Env) (m : Message) (o : Outputs)
    → s.is_logging_initialized ≡ true
    → (s.logtostderr || s.logtostdout) ≡ false
    → (m.severity == fatal && s.exit_on_dfatal) ≡ false
    → (send_to_log s envs m o).logs ≡ (log_to_logfiles s envs m.text m.severity o).logs
unfolding send_to_log
send_to_log-logs s envs m o ready files goes_on =
    ap (λ (p : Outputs). p.logs)
      (finish_fatal-goes_on s envs m (write_message s envs m (warn_before_init s o)) goes_on)
    ∙ write_message-logs s envs m (warn_before_init s o) ready files
    ∙ ap (λ (p : Outputs). (log_to_logfiles s envs m.text m.severity p).logs)
        (warn_before_init-ready s o ready)

-- After the initialization, with neither --logtostderr nor --logtostdout, where the logs have not
-- stopped writing, the disk has room, and the process did not inherit the files of the logs up to
-- the message's severity, a message that does not end the program goes to the log of its severity
-- and to those of the lower ones: there it is put behind the bytes of the open file, or into a file
-- that is opened, behind the header and what was found in it, or it is dropped for a reason that a
-- write has. The logs of higher severities do not change.
pub send_to_log-Written :
    (s : Settings) (envs : ℕ → Env) (m : Message) (o : Outputs)
    → s.is_logging_initialized ≡ true
    → (s.logtostderr || s.logtostdout) ≡ false
    → (m.severity == fatal && s.exit_on_dfatal) ≡ false
    → Writable envs m.severity o
    → ((i : ℕ)
        → i ≤ m.severity
        → Logged (envs i) m.text (o.logs i) ((send_to_log s envs m o).logs i))
      × ((i : ℕ) → m.severity < i → (send_to_log s envs m o).logs i ≡ o.logs i)
send_to_log-Written s envs m o ready files goes_on w =
    let all = log_to_logfiles-UpTo s envs m.text m.severity o w in
    let same = send_to_log-logs s envs m o ready files goes_on in
    (
      λ i l.
          subst (λ (f : ℕ → Option LogFile). Logged (envs i) m.text (o.logs i) (f i)) (sym same)
            (all.written i l),
      λ i l. ap (λ (f : ℕ → Option LogFile). f i) same ∙ all.others i l,
    )
