-- ===== src/Settings/Tests.antt =====
-- Two functions that are told of changes.
use libff.Prelude.{ℕ, ◌≡◌, ◌==◌, if◌then◌else◌, refl, List, [], ◌∷◌, codes}
use libff.Variant.{Variant, new_string, new_int}
use libff.Variant.Types.{cpp_int}
use libff.Settings.{
  looking, set_value, after_calls, Change, Settings, Command, set_command, remove_command,
  clear_command, execute_all,
}
use libff.Maps.{Map, assign, lookup, bytes_lt}
use libff.Settings.Values.{looking-IsQuiet}
use libff.Settings.Observers.{observe, count, observe-execute_all}

abbrev store : Settings
store = record {
  values = (codes "a", new_int cpp_int 1) ∷ (codes "c", new_string (codes "x")) ∷ [];
  changed_funcs = 4 ∷ 9 ∷ [];
}

abbrev commands : List Command
commands =
    set_command (codes "b") (new_string (codes "y"))
    ∷ remove_command (codes "a")
    ∷ clear_command
    ∷ set_command (codes "b") (new_int cpp_int 7)
    ∷ set_command (codes "b") (new_int cpp_int 8)
    ∷ []

observe-execute_all_example :
    observe 9 (execute_all looking commands store).1 store.values
    ≡ (execute_all looking commands store).0.values
unfolding count
observe-execute_all_example = observe-execute_all looking 9 commands store looking-IsQuiet refl

-- The function 4 sets the key `a` back to 1 whenever it is changed: the function 9, which is called behind
-- it, is told of the value 2 last, though the value is 1.
abbrev resetting : ℕ → Change → Map Variant → Map Variant
resetting f c m = if f == 4 then assign (codes "a") (new_int cpp_int 1) m else m

reset_behind : (set_value resetting (codes "a") (new_int cpp_int 2) store).0.values ≡ store.values
unfolding set_value after_calls lookup assign bytes_lt
reset_behind = refl
