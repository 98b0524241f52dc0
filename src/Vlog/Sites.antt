-- ===== src/Vlog/Sites.antt =====
-- vlog_is_on.cc: the call sites' caches, `SetVLOGLevel` and `InitializeVLOG3`.
use ng_log.Prelude.{
  same_text, ℕ, ◌+◌, Bool, true, false, not, ◌&&◌, List, [], ◌∷◌, Option, none, some, leb, ◌==◌,
  if◌then◌else◌, length,
}
use ng_log.Demangle.Machine.{ℤ, pos, negsuc}
use ng_log.Vlog.Glob.{safe_fnmatch}
use ng_log.Vlog.Modules.{Info, vmodule_entries, new_infos, level_at, module_name}

-- `SiteFlag`: `level` is the address of a level, `default_level` the number of a flag.
pub record Site : Type 0 where
  pub level : Option ℕ
  pub default_level : Option ℕ
  pub initialized : Bool
  pub base_name : Option (List ℕ)

-- What the library's lock protects, the flags, and every site by its number. FLAGS_v is flag 0.
pub record Verbosity : Type 0 where
  pub vmodule_list : List Info
  pub cached_site_list : List ℕ
  pub inited_vmodule : Bool
  pub next_address : ℕ
  pub sites : ℕ → Site
  pub flags : ℕ → ℤ
  pub vmodule_flag : List ℕ

-- `a <= b`
unfoldable pub at_most : ℤ → ℤ → Bool
at_most (pos a) (pos b) = leb a b
at_most (negsuc a) (pos b) = true
at_most (pos a) (negsuc b) = false
at_most (negsuc a) (negsuc b) = leb b a

unfoldable pub vlog2_initializer : Verbosity → Verbosity
vlog2_initializer v =
    let entries = vmodule_entries v.vmodule_flag in
    record v {
      vmodule_list = new_infos v.next_address entries v.vmodule_list;
      next_address = v.next_address + length entries;
      inited_vmodule = true;
    }

unfoldable pub ensure_initialized : Verbosity → Verbosity
ensure_initialized v = if v.inited_vmodule then v else vlog2_initializer v

-- The loop of `SetVLOGLevel` over the patterns: what it finds, and what it stores.
pub record Search : Type 0 where
  pub result : ℤ
  pub found : Bool
  pub found_exact : Bool

unfoldable pub visit : List ℕ → Info → Search → Search
unfolding same_text safe_fnmatch
visit module_pattern info s =
    if same_text info.module_pattern module_pattern
    then record {
      result = if s.found then s.result else info.vlog_level;
      found = true;
      found_exact = true;
    }
    else if not s.found && safe_fnmatch info.module_pattern module_pattern
    then record { result = info.vlog_level; found = true; found_exact = s.found_exact }
    else s

unfoldable pub search_levels : List ℕ → List Info → Search → Search
search_levels module_pattern [] s = s
search_levels module_pattern (info ∷ list) s =
    search_levels module_pattern list (visit module_pattern info s)

unfoldable pub store_levels : List ℕ → ℤ → List Info → List Info
unfolding same_text
store_levels module_pattern log_level [] = []
store_levels module_pattern log_level (info ∷ list) =
    (if same_text info.module_pattern module_pattern
      then record info { vlog_level = log_level }
      else info)
    ∷ store_levels module_pattern log_level list

unfoldable pub put_site : ℕ → Site → (ℕ → Site) → ℕ → Site
put_site id site sites j = if j == id then site else sites j

-- `SafeFNMatch_(module_pattern, …, item->base_name, item->base_len)`
unfoldable pub selects : List ℕ → Site → Bool
unfolding safe_fnmatch
selects module_pattern site = elim site.base_name [
  | none ↦ safe_fnmatch module_pattern []
  | some base ↦ safe_fnmatch module_pattern base
]

-- The loop over the sites that follow their default flag: the ones that stay in the list, and what
-- the sites are then.
unfoldable pub redirect : List ℕ → ℕ → List ℕ → (ℕ → Site) → List ℕ × (ℕ → Site)
unfolding put_site selects
redirect module_pattern address [] sites = ([], sites)
redirect module_pattern address (id ∷ list) sites =
    let chosen =
      redirect module_pattern address list
        (put_site id (record (sites id) { level = some address }) sites) in
    let rest = redirect module_pattern address list sites in
    if selects module_pattern (sites id) then chosen else (id ∷ rest.0, rest.1)

-- A new entry, in front of the others, and the sites that it takes over.
unfoldable pub add_override : List ℕ → ℤ → Verbosity → Verbosity
unfolding redirect
add_override module_pattern log_level v =
    let (kept, sites) = redirect module_pattern v.next_address v.cached_site_list v.sites in
    record v {
      vmodule_list =
          record {
            module_pattern = module_pattern;
            vlog_level = log_level;
            address = v.next_address;
          }
          ∷ v.vmodule_list;
      next_address = v.next_address + 1;
      cached_site_list = kept;
      sites = sites;
    }

-- `SetVLOGLevel`: the level so far, and the state.
unfoldable pub set_vlog_level : List ℕ → ℤ → Verbosity → ℤ × Verbosity
unfolding ensure_initialized search_levels store_levels add_override
set_vlog_level module_pattern log_level v =
    let w = ensure_initialized v in
    let s =
      search_levels module_pattern w.vmodule_list
        (record { result = v.flags 0; found = false; found_exact = false }) in
    let stored = record w { vmodule_list = store_levels module_pattern log_level w.vmodule_list } in
    (s.result, if s.found_exact then stored else add_override module_pattern log_level stored)

-- The address of the first entry that matches the module.
unfoldable pub find_level : List ℕ → List Info → Option ℕ
unfolding safe_fnmatch
find_level base [] = none
find_level base (info ∷ list) =
    let rest = find_level base list in
    if safe_fnmatch info.module_pattern base then some info.address else rest

-- The level that an address leads to, or the flag's value.
unfoldable pub load_level : Option ℕ → ℕ → Verbosity → ℤ
unfolding level_at
load_level none flag v = v.flags flag
load_level (some address) flag v = level_at address v.vmodule_list

abbrev pub given {ℓ} : {A : Type ℓ} → Option A → Bool
given none = false
given (some a) = true

-- Whether the site joins the list of those that follow their default flag.
abbrev pub follows_default : Option ℕ → Site → Bool
follows_default value site = not (given value) && not (given site.base_name)

abbrev pub cached_site : ℕ → List ℕ → Option ℕ → Site → Site
cached_site flag base value site = record {
  level = value;
  default_level = if given value then none else some flag;
  initialized = true;
  base_name = if follows_default value site then some base else site.base_name;
}

-- Caches where a site reads its level.
unfoldable pub cache_site : ℕ → ℕ → List ℕ → Option ℕ → Verbosity → Verbosity
unfolding put_site
cache_site id flag base value v = record v {
  sites = put_site id (cached_site flag base value (v.sites id)) v.sites;
  cached_site_list =
      if follows_default value (v.sites id) then id ∷ v.cached_site_list else v.cached_site_list;
}

abbrev pub flag_of : Option ℕ → ℕ
flag_of none = 0
flag_of (some flag) = flag

-- `InitializeVLOG3(site_flag, level_default, fname, verbose_level)`
unfoldable pub initialize_vlog3 : ℕ → ℕ → List ℕ → ℤ → Verbosity → Bool × Verbosity
unfolding ensure_initialized find_level load_level cache_site at_most
initialize_vlog3 id flag fname verbose_level v =
    let site = v.sites id in
    let w = ensure_initialized v in
    let value = find_level (module_name fname) w.vmodule_list in
    if site.initialized
    then (at_most verbose_level (load_level site.level (flag_of site.default_level) v), v)
    else (
      at_most verbose_level (load_level value flag w),
      (if v.inited_vmodule then cache_site id flag (module_name fname) value w else w),
    )

-- The answer from the cache, or `fresh`.
unfoldable pub cached_answer : ℤ → Site → Verbosity → Bool × Verbosity → Bool × Verbosity
unfolding at_most level_at
cached_answer verbose_level site v fresh = elim site.level [
  | some address ↦ (at_most verbose_level (level_at address v.vmodule_list), v)
  | none ↦
      (if site.initialized
        then (at_most verbose_level (v.flags (flag_of site.default_level)), v)
        else fresh)
]

-- `IsVLogOn`: the site's cache, or its initialization with FLAGS_v.
unfoldable pub is_vlog_on : ℕ → ℤ → List ℕ → Verbosity → Bool × Verbosity
unfolding initialize_vlog3 cached_answer
is_vlog_on id verbose_level fname v =
    cached_answer verbose_level (v.sites id) v (initialize_vlog3 id 0 fname verbose_level v)
