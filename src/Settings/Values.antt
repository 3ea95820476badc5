-- ===== src/Settings/Values.antt =====
-- The values that the operations leave.
use libff.Prelude.{
  ℕ, ◌≡◌, ◌≢◌, List, ◌∷◌, refl, none, some, [], arith, Bytes, Bool-cases, Option-cases, inl, inr,
}
use libff.Maps.{lookup, Map, assign, erase, Ascending}
use libff.Maps.Laws.{
  lookup-assign, lookup-assign_other, erase-none, lookup-erase, erase-Ascending, assign-Ascending,
}
use libff.Variant.{Variant}
use libff.Settings.{
  Settings, Change, looking, no_funcs, deleted, after_calls, after_clear, get_value, set_value,
  remove_value, clear_values, execute, Command, set_command, remove_command, clear_command,
}

-- The registered functions leave the values alone: they only take note of the changes.
abbrev pub IsQuiet : (ℕ → Change → Map Variant → Map Variant) → Type 0
IsQuiet react = (f : ℕ) (c : Change) (m : Map Variant) → react f c m ≡ m

pub looking-IsQuiet : IsQuiet looking
looking-IsQuiet f c m = refl

module _ (react : ℕ → Change → Map Variant → Map Variant) (quiet : IsQuiet react) where
  after_calls-quiet :
      (funcs : List ℕ) (c : Change) (m : Map Variant) → after_calls react funcs c m ≡ m
  unfolding after_calls
  after_calls-quiet [] c m = refl
  after_calls-quiet (f ∷ funcs) c m = rw (quiet f c m) (after_calls-quiet funcs c m)

  after_clear-quiet : (funcs : List ℕ) (moved m : Map Variant) → after_clear react funcs moved m ≡ m
  unfolding after_clear
  after_clear-quiet funcs [] m = refl
  after_clear-quiet funcs (e ∷ moved) m =
      rw (after_calls-quiet funcs (deleted e.0 e.1) m) (after_clear-quiet funcs moved m)

  -- With quiet functions registered or with none, the operations do the same to the values.
  pub set_value-values :
      (key : Bytes) (value : Variant) (s : Settings)
      → (set_value react key value s).0.values ≡ assign key value s.values
  unfolding set_value
  set_value-values key value s = elim (Bool-cases (no_funcs s.changed_funcs)) [
    | inl e ↦ rw e refl
    | inr e ↦ rw e (after_calls-quiet s.changed_funcs _ (assign key value s.values))
  ]

  pub remove_value-values :
      (key : Bytes) (s : Settings) → (remove_value react key s).0.values ≡ erase key s.values
  unfolding remove_value
  remove_value-values key s = elim (Option-cases (lookup key s.values)) [
    | inl e ↦ ground (arith, erase-none key s.values)
    | inr (old, e) ↦
        ground (arith, after_calls-quiet s.changed_funcs (deleted key old) (erase key s.values))
  ]

  pub clear_values-values : (s : Settings) → (clear_values react s).0.values ≡ []
  unfolding clear_values
  clear_values-values s = ground (arith, after_clear-quiet s.changed_funcs s.values [])

  -- After `setValue` the key has the value and every other key has what it had, whether quiet functions
  -- are registered or none.
  pub get_value-set_value :
      (key key' : Bytes) (value : Variant) (s : Settings)
      → (get_value key (set_value react key value s).0 ≡ some value)
        × (key' ≢ key → get_value key' (set_value react key value s).0 ≡ get_value key' s)
  unfolding get_value
  get_value-set_value key key' value s =
      rw (set_value-values key value s)
        (lookup-assign key value s.values, lookup-assign_other key value key' s.values)

  -- The keys of the map stay in strict order, whatever is done, and a key that was removed is not there.
  pub execute-Ascending :
      (c : Command) (s : Settings) → Ascending s.values → Ascending (execute react c s).0.values
  unfolding execute Ascending
  execute-Ascending (set_command key value) s h =
      rw (set_value-values key value s) (assign-Ascending key value s.values h)
  execute-Ascending (remove_command key) s h =
      rw (remove_value-values key s) (erase-Ascending key s.values h)
  execute-Ascending clear_command s h = rw (clear_values-values s) tt

  pub get_value-remove_value :
      (key : Bytes) (s : Settings)
      → Ascending s.values
      → get_value key (remove_value react key s).0 ≡ none
  unfolding get_value
  get_value-remove_value key s h = rw (remove_value-values key s) (lookup-erase key s.values h)
