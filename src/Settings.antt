-- ===== src/Settings.antt =====
-- ff/src/settings/Settings.cpp: values under keys, and the functions that are told of changes. What one
-- thread does; the mutex keeps others out of the map.
pub mod Values
mod Observers
mod Tests
use libff.Prelude.{
  ℕ, zero, suc, ◌+◌, ◌-◌, ◌*◌, ◌/◌, ◌%◌, ◌^◌, ◌≤◌, ◌<◌, min, bit_and, bit_or, bit_xor, ◌≡◌, refl,
  sym, ap, ◌∙◌, ◌≢◌, ◌↔◌, ◌⊎◌, inl, inr, Bool, true, false, not, ◌&&◌, ◌||◌, Option, none, some,
  List, [], ◌∷◌, ◌++◌, map, append-nil, append_assoc, arith, ltb, leb, ◌==◌, if◌then◌else◌, ltb→lt,
  lt→ltb, le→ltb, leb→le, le→leb, lt→leb, ==_iff, ==_refl, Bool-cases, Option-cases, length,
  get_elem?, get_or, set, take, drop, replicate, All, length-append, length-set, take-append-drop,
  length-take, length-drop, length-replicate, take-length_append, drop-length_append,
  drop-length_add_append, take_all, drop_all, take-append_le, drop-append_le,
  get_elem?-length_append, get_elem?-none, take_nil, drop_nil, take-take, drop-take, get_elem?-take,
  get_elem?-some, drop-drop, drop-min, length-map, take-replicate_append, take-length_add_append,
  drop_pos, Bytes, IsByte, add32, le_bytes, le_value, length-le_bytes, le_value-le_bytes,
  le_bytes-IsByte, sub32, copy_out, copy_in, written, copy_in-written, copy_in-outside,
  length-written, take-written, copy_out-inside, copy_out-outside, Returns, Returns_weaken,
  same_table, agree_below, bit_and_low4, bit_or_nibbles, bit_and_low2, bit_and_low6, bit_and_mid2,
  bit_or_low2, bit_or_low6, codes, digit, numeral_loop, numeral, padded,
}
use libff.Maps.{Map, lookup, assign, erase}
use libff.Variant.{Variant, new_unknown}

pub data SettingChangeEvent : Type 0 where
  add del changed : SettingChangeEvent

-- The arguments of a `SettingChangedFunc`
pub record Change : Type 0 where
  pub event : SettingChangeEvent
  pub key : Bytes
  pub new_value : Variant
  pub old_value : Variant

-- The functions are numbers here, and a call of one is recorded with its arguments.
pub record Settings : Type 0 where
  pub values : Map Variant
  pub changed_funcs : List ℕ

abbrev pub Calls : Type 0
Calls = List (ℕ × Change)

abbrev pub new_settings : Settings
new_settings = record { values = []; changed_funcs = [] }

-- `getValue(key)`, where `none` is a `SettingsException`, and `getValue(key, defaultValue)`
unfoldable pub get_value : Bytes → Settings → Option Variant
unfolding lookup
get_value key s = lookup key s.values

unfoldable pub get_value_or : Bytes → Variant → Settings → Variant
unfolding lookup
get_value_or key default_value s = elim (lookup key s.values) [ none ↦ default_value | some v ↦ v ]

-- `hasValue`
unfoldable pub has_value : Bytes → Settings → Bool
unfolding lookup
has_value key s = elim (lookup key s.values) [ none ↦ false | some v ↦ true ]

-- Is no function registered?
abbrev pub no_funcs : List ℕ → Bool
no_funcs [] = true
no_funcs (f ∷ fs) = false

-- The calls of the loop that calls each function in turn
abbrev pub call_all : List ℕ → Change → Calls
call_all funcs c = map (λ f. (f, c)) funcs

abbrev pub deleted : Bytes → Variant → Change
deleted key old = record { event = del; key = key; new_value = new_unknown; old_value = old }

-- The calls of the two loops of `clear`
unfoldable pub clear_calls : List ℕ → Map Variant → Calls
clear_calls funcs [] = []
clear_calls funcs (e ∷ m) = call_all funcs (deleted e.0 e.1) ++ clear_calls funcs m

-- Functions that only look
abbrev pub looking : ℕ → Change → Map Variant → Map Variant
looking f c m = m

-- The functions are the program's, and may themselves set and remove values: `react f c m` is what a call of
-- `f` with the arguments `c` makes of the values `m`. (A function that registers another one invalidates
-- the iterator of the loop that calls it; none does so here.)
module _ (react : ℕ → Change → Map Variant → Map Variant) where
  -- The values behind the loop that calls each function in turn
  unfoldable pub after_calls : List ℕ → Change → Map Variant → Map Variant
  after_calls [] c m = m
  after_calls (f ∷ funcs) c m = after_calls funcs c (react f c m)

  -- `setValue`: the settings afterwards, and the calls it made itself
  unfoldable pub set_value : Bytes → Variant → Settings → Settings × Calls
  unfolding lookup assign after_calls
  set_value key value s =
      if no_funcs s.changed_funcs
      then (record s { values = assign key value s.values }, [])
      else (let c : Change = elim (lookup key s.values) [
        | none ↦ record { event = add; key = key; new_value = value; old_value = new_unknown }
        | some old ↦ record { event = changed; key = key; new_value = value; old_value = old }
      ] in
          (
            record s { values = after_calls s.changed_funcs c (assign key value s.values) },
            call_all s.changed_funcs c,
          ))

  -- `removeValue`
  unfoldable pub remove_value : Bytes → Settings → Settings × Calls
  unfolding lookup erase after_calls
  remove_value key s =
      if no_funcs s.changed_funcs
      then (record s { values = erase key s.values }, [])
      else elim (lookup key s.values) [
        | none ↦ (s, [])
        | some old ↦ (
          record s { values = after_calls s.changed_funcs (deleted key old) (erase key s.values) },
          call_all s.changed_funcs (deleted key old),
        )
      ]

  -- The values behind the two loops of `clear`, over the values that it moved out of the map
  unfoldable pub after_clear : List ℕ → Map Variant → Map Variant → Map Variant
  unfolding after_calls
  after_clear funcs [] m = m
  after_clear funcs (e ∷ moved) m = after_clear funcs moved (after_calls funcs (deleted e.0 e.1) m)

  -- `clear`
  unfoldable pub clear_values : Settings → Settings × Calls
  unfolding clear_calls after_clear
  clear_values s = if no_funcs s.changed_funcs then (record s { values = [] }, []) else (
    record s { values = after_clear s.changed_funcs s.values [] },
    clear_calls s.changed_funcs s.values,
  )

-- `onChanged`
unfoldable pub on_changed : ℕ → Settings → Settings
on_changed f s = record s { changed_funcs = s.changed_funcs ++ f ∷ [] }

-- `getKeys`
unfoldable pub get_keys : Settings → List Bytes
get_keys s = map (λ e. e.0) s.values

-- What a program does with the settings
pub data Command : Type 0 where
  set_command : Bytes → Variant → Command
  remove_command : Bytes → Command
  clear_command : Command

module _ (react : ℕ → Change → Map Variant → Map Variant) where
  unfoldable pub execute : Command → Settings → Settings × Calls
  unfolding set_value remove_value clear_values
  execute (set_command key value) s = set_value react key value s
  execute (remove_command key) s = remove_value react key s
  execute clear_command s = clear_values react s

  unfoldable pub execute_all : List Command → Settings → Settings × Calls
  unfolding execute
  execute_all [] s = (s, [])
  execute_all (c ∷ cs) s =
      let (s', calls) = execute c s in let (s'', more) = execute_all cs s' in (s'', calls ++ more)
