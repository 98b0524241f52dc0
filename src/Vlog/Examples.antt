-- ===== src/Vlog/Examples.antt =====
-- vlog_is_on.cc: the theorems at concrete inputs.
use ng_log.Prelude.{
  arith, same_text, ℕ, zero, suc, ◌≡◌, refl, true, false, [], ◌∷◌, none, some, codes, ◌↔◌, contains,
}
use ng_log.Demangle.Machine.{pos, is_digit}
use ng_log.Vlog.Glob.{safe_fnmatch}
use ng_log.Vlog.Matches.{Glob, safe_fnmatch_iff}
use ng_log.Vlog.Modules.{vmodule_entries, module_name, behind_slash, before_dot, without_inl}
use ng_log.Vlog.Sites.{
  Site, Verbosity, selects, set_vlog_level, initialize_vlog3, is_vlog_on, ensure_initialized,
  at_most,
}
use ng_log.Vlog.Overrides.{set_vlog_level-overrides}
use ng_log.Vlog.Redirects.{set_vlog_level-sites}
use ng_log.Vlog.Caches.{is_vlog_on-cached}
use ng_log.Vlog.Entries.{vmodule_entries-cons}

safe_fnmatch_iff_example :
    (safe_fnmatch (codes "m*p?") (codes "mapred") ≡ true) ↔ Glob (codes "m*p?") (codes "mapred")
safe_fnmatch_iff_example =
    safe_fnmatch_iff (codes "m*p?") (codes "mapred") (refl, (refl, (refl, tt)))
      (refl, (refl, (refl, (refl, (refl, (refl, tt))))))

abbrev unseen : Site
unseen = record { level = none; default_level = none; initialized = false; base_name = none }

abbrev program_sites : ℕ → Site
program_sites zero = record {
  level = none;
  default_level = some 0;
  initialized = true;
  base_name = some (codes "map");
}
program_sites (suc id) = unseen

-- A program with --v=1, one site that follows it, and a second one that did not run yet.
abbrev program : Verbosity
program = record {
  vmodule_list = [];
  cached_site_list = 0 ∷ [];
  inited_vmodule = true;
  next_address = 0;
  sites = program_sites;
  flags = λ flag. pos 1;
  vmodule_flag = [];
}

set_vlog_level-overrides_example :
    (initialize_vlog3 1 0
      (codes "src/map.cc")
      (pos 2)
      (set_vlog_level (codes "map") (pos 3) program).1).0
    ≡ at_most (pos 2) (pos 3)
unfolding set_vlog_level ensure_initialized module_name behind_slash before_dot without_inl
    same_text safe_fnmatch
set_vlog_level-overrides_example =
    set_vlog_level-overrides (codes "map") (pos 3) program 1 0 (codes "src/map.cc") (pos 2) refl
      refl refl

set_vlog_level-sites_example : (set_vlog_level (codes "map") (pos 3) program).1.sites 0 ≡ record {
  level = some 0;
  default_level = some 0;
  initialized = true;
  base_name = some (codes "map");
}
unfolding ensure_initialized contains safe_fnmatch selects
set_vlog_level-sites_example = set_vlog_level-sites (codes "map") (pos 3) program 0 refl

is_vlog_on-cached_example :
    let first = initialize_vlog3 1 0 (codes "map.cc") (pos 2) program in
    is_vlog_on 1 (pos 2) (codes "map.cc") first.1 ≡ first
is_vlog_on-cached_example = is_vlog_on-cached 1 (pos 2) (codes "map.cc") program refl refl

vmodule_entries-cons_example :
    vmodule_entries (codes "map*=12,gfs=3")
    ≡ (codes "map*", pos 12) ∷ vmodule_entries (codes "gfs=3")
unfolding is_digit contains
vmodule_entries-cons_example =
    vmodule_entries-cons (codes "map*") b'1' (codes "2") (codes "gfs=3") refl (refl, (refl, tt))
      (omega arith)
