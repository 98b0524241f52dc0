-- ===== src/Vlog/Redirects.antt =====
-- vlog_is_on.cc: the call sites that `SetVLOGLevel` takes over.
use ng_log.Prelude.{
  ℕ, ◌≡◌, refl, ◌∙◌, sym, ap, Bool, true, false, ◌&&◌, List, [], ◌∷◌, some, arith, ◌==◌,
  if◌then◌else◌, inl, inr, Bool-cases, contains,
}
use ng_log.Demangle.Machine.{ℤ}
use ng_log.Vlog.Sites.{
  Site, Verbosity, ensure_initialized, store_levels, put_site, selects, redirect, add_override,
  set_vlog_level,
}
use ng_log.Vlog.Overrides.{has_exact, eq_self, set_vlog_level-adds}

abbrev redirected : ℕ → Site → Site
redirected address site = record site { level = some address }

if_same : (b : Bool) (x : Site) → (if b then x else x) ≡ x
if_same true x = refl
if_same false x = refl

-- `redirect` seen at one site: what it is if it is redirected, and otherwise.
abbrev outcome : ℕ → Bool → Site → Site
outcome address chosen site = if chosen then redirected address site else site

pub put_same : (id j : ℕ) (x : Site) (sites : ℕ → Site) → id ≡ j → put_site id x sites j ≡ x
unfolding put_site
put_same id j x sites e = rw e (rw (eq_self j) refl)

put_other :
    (id j : ℕ) (x : Site) (sites : ℕ → Site) → (id == j) ≡ false → put_site id x sites j ≡ sites j
unfolding put_site
put_other id j x sites e = rw (swapped id j e) refl
  where
    swapped : (a b : ℕ) → (a == b) ≡ false → (b == a) ≡ false
    swapped a b e = ground arith

redirect-site :
    (module_pattern : List ℕ) (address j : ℕ) (list : List ℕ) (sites : ℕ → Site)
    → (redirect module_pattern address list sites).1 j
      ≡ outcome address (contains list j && selects module_pattern (sites j)) (sites j)
unfolding redirect contains
redirect-site module_pattern address j [] sites = refl
redirect-site module_pattern address j (id ∷ list) sites =
    elim (Bool-cases (selects module_pattern (sites id))) [
      | inl e ↦ rw e (
          redirect-site module_pattern address j list
            (put_site id (record (sites id) { level = some address }) sites)
          ∙ updated e)
      | inr e ↦ rw e (redirect-site module_pattern address j list sites ∙ skipped e)
    ]
  where
    same : (id == j) ≡ true → id ≡ j
    same e = ground arith

    selects_at :
        (id == j) ≡ true → selects module_pattern (sites j) ≡ selects module_pattern (sites id)
    selects_at here = ap (λ k. selects module_pattern (sites k)) (sym (same here))

    chosen :
        selects module_pattern (sites j) ≡ true
        → id ≡ j
        → redirected address (sites id)
          ≡ outcome address (selects module_pattern (sites j)) (sites j)
    chosen e here = rw e (ap (λ k. redirected address (sites k)) here)

    neither : (b c d : Bool) → d ≡ false → (b && d) ≡ (c && d)
    neither b c d e = ground arith

    updated :
        selects module_pattern (sites id) ≡ true
        → outcome address
            (contains list j
              && selects module_pattern (put_site id (redirected address (sites id)) sites j))
            (put_site id (redirected address (sites id)) sites j)
          ≡ outcome address (contains (id ∷ list) j && selects module_pattern (sites j)) (sites j)
    updated e = elim (Bool-cases (id == j)) [
      | inr other ↦ rw other (rw (put_other id j (redirected address (sites id)) sites other) refl)
      | inl here ↦ rw here (
          ap (λ x. outcome address (contains list j && selects module_pattern x) x)
            (put_same id j (redirected address (sites id)) sites (same here))
          ∙ if_same (contains list j && selects module_pattern (sites id))
              (redirected address (sites id))
          ∙ chosen (selects_at here ∙ e) (same here))
    ]

    skipped :
        selects module_pattern (sites id) ≡ false
        → outcome address (contains list j && selects module_pattern (sites j)) (sites j)
          ≡ outcome address (contains (id ∷ list) j && selects module_pattern (sites j)) (sites j)
    skipped e = elim (Bool-cases (id == j)) [
      | inr other ↦ rw other refl
      | inl here ↦ ap (λ b. outcome address b (sites j)) (neither _ _ _ (selects_at here ∙ e))
    ]

-- `SetVLOGLevel` with a new pattern takes over, of the sites that follow their default flag,
-- exactly those whose module the pattern matches: their level is the new entry's, every other site
-- is as it was, and whatever the state before, FLAGS_v is not touched.
pub set_vlog_level-sites :
    (module_pattern : List ℕ) (log_level : ℤ) (v : Verbosity) (id : ℕ)
    → has_exact module_pattern (ensure_initialized v).vmodule_list ≡ false
    → let w = ensure_initialized v in
      (set_vlog_level module_pattern log_level v).1.sites id ≡ (
        if contains w.cached_site_list id && selects module_pattern (w.sites id)
        then record (w.sites id) { level = some w.next_address }
        else w.sites id)
set_vlog_level-sites module_pattern log_level v id h =
    let w = ensure_initialized v in
    ap (λ (x : Verbosity). x.sites id) (set_vlog_level-adds module_pattern log_level v h) ∙ added w
  where
    added :
        (w : Verbosity)
        → (add_override module_pattern log_level (record w {
          vmodule_list = store_levels module_pattern log_level w.vmodule_list;
        })).sites
            id
          ≡ outcome w.next_address
              (contains w.cached_site_list id && selects module_pattern (w.sites id))
              (w.sites id)
    added w =
        unfold add_override in
        redirect-site module_pattern w.next_address id w.cached_site_list w.sites
