-- ===== src/Vlog/Overrides.antt =====
-- vlog_is_on.cc: what `SetVLOGLevel` and the caches promise.
use ng_log.Prelude.{
  same_text, ℕ, ◌≡◌, refl, ◌∙◌, sym, ap, Bool, true, false, ◌||◌, List, [], ◌∷◌, arith, ◌==◌,
  if◌then◌else◌, inl, inr, Bool-cases,
}
use ng_log.Demangle.Machine.{ℤ}
use ng_log.Vlog.Glob.{safe_fnmatch}
use ng_log.Vlog.Modules.{Info, module_name}
use ng_log.Vlog.Sites.{
  Verbosity, vlog2_initializer, at_most, ensure_initialized, Search, visit, search_levels,
  store_levels, add_override, set_vlog_level, initialize_vlog3,
}

-- Some entry has this very pattern.
abbrev pub has_exact : List ℕ → List Info → Bool
has_exact module_pattern [] = false
has_exact module_pattern (info ∷ list) =
    same_text info.module_pattern module_pattern || has_exact module_pattern list

-- The level of the first entry that has the pattern, or that matches it.
abbrev pub level_so_far : List ℕ → List Info → ℤ → ℤ
level_so_far module_pattern [] default = default
level_so_far module_pattern (info ∷ list) default =
    let rest = level_so_far module_pattern list default in
    if same_text info.module_pattern module_pattern
      || safe_fnmatch info.module_pattern module_pattern
    then info.vlog_level
    else rest

search_levels-exact :
    (module_pattern : List ℕ) (list : List Info) (s : Search)
    → (search_levels module_pattern list s).found_exact
      ≡ (s.found_exact || has_exact module_pattern list)
unfolding search_levels
search_levels-exact module_pattern [] s = ground arith
search_levels-exact module_pattern (info ∷ list) s =
    search_levels-exact module_pattern list (visit module_pattern info s) ∙ visited s
  where
    visited :
        (s : Search)
        → ((visit module_pattern info s).found_exact || has_exact module_pattern list)
          ≡ (s.found_exact || has_exact module_pattern (info ∷ list))
    visited s = unfold visit in ground arith

search_levels-found :
    (module_pattern : List ℕ) (list : List Info) (s : Search)
    → s.found ≡ true
    → (search_levels module_pattern list s).result ≡ s.result
unfolding search_levels
search_levels-found module_pattern [] s h = refl
search_levels-found module_pattern (info ∷ list) s h =
    search_levels-found module_pattern list (visit module_pattern info s) (still s h) ∙ same s h
  where
    still : (s : Search) → s.found ≡ true → (visit module_pattern info s).found ≡ true
    still s h = unfold visit in ground arith

    same : (s : Search) → s.found ≡ true → (visit module_pattern info s).result ≡ s.result
    same s h = unfold visit in ground arith

search_levels-result :
    (module_pattern : List ℕ) (list : List Info) (s : Search)
    → s.found ≡ false
    → (search_levels module_pattern list s).result ≡ level_so_far module_pattern list s.result
unfolding search_levels
search_levels-result module_pattern [] s h = refl
search_levels-result module_pattern (info ∷ list) s h =
    elim (Bool-cases (
      same_text info.module_pattern module_pattern
      || safe_fnmatch info.module_pattern module_pattern)) [
        | inl hit ↦ rw hit (
            search_levels-found module_pattern list (visit module_pattern info s) (hits s h hit)
            ∙ level s h hit)
        | inr miss ↦ rw miss (
            ap (λ x. (search_levels module_pattern list x).result) (misses s miss)
            ∙ search_levels-result module_pattern list s h)
      ]
  where
    Hit : Type 0
    Hit =
        (same_text info.module_pattern module_pattern
          || safe_fnmatch info.module_pattern module_pattern)
        ≡ true

    hits : (s : Search) → s.found ≡ false → Hit → (visit module_pattern info s).found ≡ true
    hits s h hit = unfold visit in ground arith

    level :
        (s : Search)
        → s.found ≡ false
        → Hit
        → (visit module_pattern info s).result ≡ info.vlog_level
    level s h hit = unfold visit in ground arith

    misses :
        (s : Search)
        → (same_text info.module_pattern module_pattern
            || safe_fnmatch info.module_pattern module_pattern)
          ≡ false
        → visit module_pattern info s ≡ s
    misses s miss = unfold visit in ground arith

-- `SetVLOGLevel` returns the level of the first entry, in the list's order, whose pattern is the
-- given one or matches it, as it was before the call, and the value of --v if there is none.
pub set_vlog_level-result :
    (module_pattern : List ℕ) (log_level : ℤ) (v : Verbosity)
    → (set_vlog_level module_pattern log_level v).0
      ≡ level_so_far module_pattern (ensure_initialized v).vmodule_list (v.flags 0)
unfolding set_vlog_level
set_vlog_level-result module_pattern log_level v =
    search_levels-result module_pattern (ensure_initialized v).vmodule_list
      (record { result = v.flags 0; found = false; found_exact = false }) refl

pub eq_self : (a : ℕ) → a == a ≡ true
eq_self a = ground arith

inited : (v : Verbosity) → (ensure_initialized v).inited_vmodule ≡ true
unfolding ensure_initialized vlog2_initializer
inited v = elim (Bool-cases v.inited_vmodule) [ inl e ↦ rw e refl | inr e ↦ rw e refl ]

-- The state that `SetVLOGLevel` leaves when no entry has the pattern.
pub set_vlog_level-adds :
    (module_pattern : List ℕ) (log_level : ℤ) (v : Verbosity)
    → has_exact module_pattern (ensure_initialized v).vmodule_list ≡ false
    → let w = ensure_initialized v in
      (set_vlog_level module_pattern log_level v).1
      ≡ add_override module_pattern log_level
          (record w { vmodule_list = store_levels module_pattern log_level w.vmodule_list })
unfolding set_vlog_level
set_vlog_level-adds module_pattern log_level v h = if_false _ _ _ (
    search_levels-exact module_pattern (ensure_initialized v).vmodule_list
      (record { result = v.flags 0; found = false; found_exact = false })
    ∙ h)
  where
    if_false : (b : Bool) (x y : Verbosity) → b ≡ false → (if b then x else y) ≡ y
    if_false b x y e = rw e refl

-- When no entry has the pattern, `SetVLOGLevel` takes effect at every call site that is initialized
-- later and whose module the pattern matches: whatever entries there are, --vmodule included, its
-- level decides.
pub set_vlog_level-overrides :
    (module_pattern : List ℕ) (log_level : ℤ) (v : Verbosity) (id flag : ℕ) (fname : List ℕ)
    (verbose_level : ℤ)
    → has_exact module_pattern (ensure_initialized v).vmodule_list ≡ false
    → safe_fnmatch module_pattern (module_name fname) ≡ true
    → ((set_vlog_level module_pattern log_level v).1.sites id).initialized ≡ false
    → (initialize_vlog3 id flag fname verbose_level (set_vlog_level module_pattern log_level v).1).0
      ≡ at_most verbose_level log_level
set_vlog_level-overrides module_pattern log_level v id flag fname verbose_level h m fresh =
    ap (λ w. (initialize_vlog3 id flag fname verbose_level w).0)
      (set_vlog_level-adds module_pattern log_level v h)
    ∙ decided _ (inited v) (
        sym (
          ap (λ (w : Verbosity). (w.sites id).initialized)
            (set_vlog_level-adds module_pattern log_level v h))
        ∙ fresh)
  where
    decided :
        (w : Verbosity)
        → w.inited_vmodule ≡ true
        → ((add_override module_pattern log_level w).sites id).initialized ≡ false
        → (initialize_vlog3 id flag fname verbose_level (add_override module_pattern log_level w)).0
          ≡ at_most verbose_level log_level
    decided w i e =
        unfold initialize_vlog3 ensure_initialized add_override in
        rw e (rw i (rw m (rw (eq_self w.next_address) refl)))
