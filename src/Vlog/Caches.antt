-- ===== src/Vlog/Caches.antt =====
-- vlog_is_on.cc: the answer from the cache is the answer without it.
use ng_log.Prelude.{
  ℕ, ◌≡◌, refl, ◌∙◌, sym, ap, Bool, true, false, List, Option, none, some, if◌then◌else◌,
}
use ng_log.Demangle.Machine.{ℤ}
use ng_log.Vlog.Modules.{module_name}
use ng_log.Vlog.Sites.{
  Site, Verbosity, at_most, ensure_initialized, find_level, load_level, cache_site, cached_site,
  flag_of, initialize_vlog3, cached_answer, is_vlog_on,
}
use ng_log.Vlog.Redirects.{put_same}

-- What `IsVLogOn` answers at a site that is initialized.
cached_answer-load_level :
    (verbose_level : ℤ) (s : Site) (v : Verbosity) (fresh : Bool × Verbosity) (level : Option ℕ)
    → s.initialized ≡ true
    → s.level ≡ level
    → cached_answer verbose_level s v fresh
      ≡ (at_most verbose_level (load_level level (flag_of s.default_level) v), v)
unfolding cached_answer load_level
cached_answer-load_level verbose_level s v fresh none i l = rw l (rw i refl)
cached_answer-load_level verbose_level s v fresh (some address) i l = rw l refl

ready : (v : Verbosity) → v.inited_vmodule ≡ true → ensure_initialized v ≡ v
unfolding ensure_initialized
ready v i = if_true _ v _ i
  where
    if_true : (b : Bool) (x y : Verbosity) → b ≡ true → (if b then x else y) ≡ x
    if_true b x y e = rw e refl

-- The first question at a site, with --vmodule read.
initialize_vlog3-fresh :
    (id flag : ℕ) (fname : List ℕ) (verbose_level : ℤ) (v : Verbosity)
    → v.inited_vmodule ≡ true
    → (v.sites id).initialized ≡ false
    → let value = find_level (module_name fname) v.vmodule_list in
      initialize_vlog3 id flag fname verbose_level v ≡ (
        at_most verbose_level (load_level value flag v),
        cache_site id flag (module_name fname) value v,
      )
unfolding initialize_vlog3
initialize_vlog3-fresh id flag fname verbose_level v i e =
    if_false _ _ _ e ∙ ap (answer v.inited_vmodule) (ready v i) ∙ ap (λ b. answer b v) i
  where
    answer : Bool → Verbosity → Bool × Verbosity
    answer read w = (
      at_most verbose_level (load_level (find_level (module_name fname) w.vmodule_list) flag w),
      (if read
          then cache_site id flag (module_name fname)
              (find_level (module_name fname) w.vmodule_list) w
          else w),
    )

    if_false : (b : Bool) (x y : Bool × Verbosity) → b ≡ false → (if b then x else y) ≡ y
    if_false b x y e = rw e refl

cache_site-answer :
    (id : ℕ) (verbose_level : ℤ) (fname : List ℕ) (v : Verbosity) (value : Option ℕ)
    → is_vlog_on id verbose_level fname (cache_site id 0 (module_name fname) value v)
      ≡ (at_most verbose_level (load_level value 0 v), cache_site id 0 (module_name fname) value v)
unfolding is_vlog_on cache_site load_level
cache_site-answer id verbose_level fname v none =
    let base = module_name fname in
    let w = cache_site id 0 base none v in
    let s = cached_site 0 base none (v.sites id) in
    let fresh = initialize_vlog3 id 0 fname verbose_level w in
    ap (λ x. cached_answer verbose_level x w fresh) (put_same id id s v.sites refl)
    ∙ cached_answer-load_level verbose_level s w fresh none refl refl
cache_site-answer id verbose_level fname v (some address) =
    let base = module_name fname in
    let w = cache_site id 0 base (some address) v in
    let s = cached_site 0 base (some address) (v.sites id) in
    let fresh = initialize_vlog3 id 0 fname verbose_level w in
    ap (λ x. cached_answer verbose_level x w fresh) (put_same id id s v.sites refl)
    ∙ cached_answer-load_level verbose_level s w fresh (some address) refl refl

-- With --vmodule read, the first question at a call site answers by the flag or by the entry that
-- decides, and caches which of them it was: asked again, `IsVLogOn` gives the same answer from the
-- cache and leaves the state as it is.
pub is_vlog_on-cached :
    (id : ℕ) (verbose_level : ℤ) (fname : List ℕ) (v : Verbosity)
    → v.inited_vmodule ≡ true
    → (v.sites id).initialized ≡ false
    → let first = initialize_vlog3 id 0 fname verbose_level v in
      is_vlog_on id verbose_level fname first.1 ≡ first
is_vlog_on-cached id verbose_level fname v i e =
    let value = find_level (module_name fname) v.vmodule_list in
    let first = initialize_vlog3-fresh id 0 fname verbose_level v i e in
    ap (λ r. is_vlog_on id verbose_level fname r.1) first
    ∙ cache_site-answer id verbose_level fname v value
    ∙ sym first
