-- ===== src/Demangle/Examples.antt =====
-- demangle.cc: the theorems at concrete inputs.
use ng_log.Prelude.{ℕ, ◌≡◌, refl, Bool, true, false, List, ◌∷◌, ◌++◌, some, codes, arith, length}
use ng_log.Demangle.Machine.{Machine, init_state, first, with_state}
use ng_log.Demangle.Output.{text, append_text}
use ng_log.Demangle.Names.{type}
use ng_log.Demangle.Grammar.{demangle, initial, parse, parse_fuel}
use ng_log.Demangle.Moves.{Sound, Moved}
use ng_log.Demangle.Total.{demangle-returns, parse-keeps}
use ng_log.Demangle.Restores.{parse-restores}
use ng_log.Demangle.Appends.{append_text-fits, append_text-full, with_output}
use ng_log.Demangle.Runs.{out_8, type-fails}

-- The machine at the start of `Demangle`, in front of a type.
abbrev start : Machine
start = record {
  state = init_state (codes "PX3foo");
  buffer = 0 ∷ codes ".......";
  steps_remaining = 131072;
}

start-Sound : Sound start
unfolding init_state
start-Sound = record { within = omega arith; named = tt; depth_bound = omega arith }

demangle-returns_example :
    (b : Bool) × (buffer : List ℕ) × (demangle (codes "_ZN3foo3barIiE3bazEv") out_8
      ≡ some (b, buffer))
    × (length buffer ≡ 8)
    × (b ≡ false → first buffer ≡ 0)
demangle-returns_example = demangle-returns (codes "_ZN3foo3barIiE3bazEv") out_8 (omega arith)

parse-restores_example :
    (record (initial (codes "PX3foo") out_8) { steps_remaining = 131064 }).state
    ≡ (initial (codes "PX3foo") out_8).state
parse-restores_example = parse-restores 65 type _ _ type-fails

parse-keeps_example :
    (b : Bool) × (m' : Machine) × (parse parse_fuel type start ≡ some (b, m')) × Moved start m'
parse-keeps_example = parse-keeps type start start-Sound

append_text-fits_example :
    append_text (text (codes "bool")) 4 start
    ≡ with_output start 4 (codes "bool" ++ (0 ∷ codes "..."))
unfolding init_state
append_text-fits_example = append_text-fits (codes "bool") start (omega arith) refl

append_text-full_example :
    append_text (text (codes "decltype")) 8 start
    ≡ with_state
        (with_output start 7 (codes "decltyp."))
        (record start.state { out_cur = 7; overflowed = true })
unfolding init_state
append_text-full_example = append_text-full (codes "decltype") start (omega arith) (omega arith)
