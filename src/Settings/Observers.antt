-- ===== src/Settings/Observers.antt =====
-- What a registered function is told.
use libff.Prelude.{
  ℕ, ◌+◌, ◌≡◌, refl, sym, ◌∙◌, inl, inr, false, List, [], ◌∷◌, ◌++◌, arith, ◌==◌, if◌then◌else◌,
  Option-cases, Bytes,
}
use libff.Maps.{Map, lookup, assign, erase}
use libff.Maps.Laws.{erase-first, erase-none}
use libff.Variant.{Variant}
use libff.Settings.Values.{IsQuiet, set_value-values, remove_value-values, clear_values-values}
use libff.Settings.{
  Settings, Change, Calls, add, del, changed, set_value, remove_value, clear_values, clear_calls,
  call_all, no_funcs, execute, execute_all, Command, set_command, remove_command, clear_command,
}

-- A copy of the values that a function keeps, as it follows one change
unfoldable pub follow : Change → Map Variant → Map Variant
unfolding assign erase
follow c m = elim c.event [
  | add ↦ assign c.key c.new_value m
  | changed ↦ assign c.key c.new_value m
  | del ↦ erase c.key m
]

-- The function `f` follows the calls that are its own.
unfoldable pub observe : ℕ → Calls → Map Variant → Map Variant
unfolding follow
observe f [] m = m
observe f (c ∷ cs) m = observe f cs (if c.0 == f then follow c.1 m else m)

-- How often `f` is registered
unfoldable pub count : ℕ → List ℕ → ℕ
count f [] = 0
count f (g ∷ gs) = (if g == f then 1 else 0) + count f gs

observe-append :
    (f : ℕ) (a b : Calls) (m : Map Variant) → observe f (a ++ b) m ≡ observe f b (observe f a m)
unfolding observe
observe-append f [] b m = refl
observe-append f (c ∷ a) b m = observe-append f a b _

observe-absent :
    (f : ℕ) (funcs : List ℕ) (c : Change) (m : Map Variant)
    → count f funcs ≡ 0
    → observe f (call_all funcs c) m ≡ m
unfolding observe count
observe-absent f [] c m h = refl
observe-absent f (g ∷ gs) c m h = ground (arith, observe-absent f gs c m)

observe-call_all :
    (f : ℕ) (funcs : List ℕ) (c : Change) (m : Map Variant)
    → count f funcs ≡ 1
    → observe f (call_all funcs c) m ≡ follow c m
unfolding observe count
observe-call_all f [] c m h = absurd (omega arith)
observe-call_all f (g ∷ gs) c m h =
    ground (arith, observe-call_all f gs c m, observe-absent f gs c (follow c m))

observe-clear_calls :
    (f : ℕ) (funcs : List ℕ) (m : Map Variant)
    → count f funcs ≡ 1
    → observe f (clear_calls funcs m) m ≡ []
unfolding clear_calls observe
observe-clear_calls f funcs [] h = refl
observe-clear_calls f funcs (e ∷ m) h =
    observe-append f (call_all funcs _) (clear_calls funcs m) (e ∷ m)
    ∙ rw (observe-call_all f funcs _ (e ∷ m) h, erase-first e.0 e m refl)
        (observe-clear_calls f funcs m h)

count-no_funcs : (f : ℕ) (funcs : List ℕ) → count f funcs ≡ 1 → no_funcs funcs ≡ false
unfolding count
count-no_funcs f [] h = absurd (omega arith)
count-no_funcs f (g ∷ gs) h = refl

execute-changed_funcs :
    (react : ℕ → Change → Map Variant → Map Variant) (c : Command) (s : Settings)
    → (execute react c s).0.changed_funcs ≡ s.changed_funcs
unfolding execute set_value remove_value clear_values
execute-changed_funcs react (set_command key value) s = ground arith
execute-changed_funcs react (remove_command key) s = ground arith
execute-changed_funcs react clear_command s = ground arith

module _ (react : ℕ → Change → Map Variant → Map Variant) (f : ℕ) where
  observe-set_value :
      (key : Bytes) (value : Variant) (s : Settings)
      → count f s.changed_funcs ≡ 1
      → observe f (set_value react key value s).1 s.values ≡ assign key value s.values
  unfolding set_value follow
  observe-set_value key value s once = elim (Option-cases (lookup key s.values)) [
    | inl absent ↦
        rw (count-no_funcs f s.changed_funcs once, absent)
          (observe-call_all f s.changed_funcs _ s.values once)
    | inr (old, there) ↦
        rw (count-no_funcs f s.changed_funcs once, there)
          (observe-call_all f s.changed_funcs _ s.values once)
  ]

  observe-remove_value :
      (key : Bytes) (s : Settings)
      → count f s.changed_funcs ≡ 1
      → observe f (remove_value react key s).1 s.values ≡ erase key s.values
  unfolding remove_value follow observe
  observe-remove_value key s once = elim (Option-cases (lookup key s.values)) [
    | inl absent ↦
        rw (count-no_funcs f s.changed_funcs once, absent) (sym (erase-none key s.values absent))
    | inr (old, there) ↦
        rw (count-no_funcs f s.changed_funcs once, there)
          (observe-call_all f s.changed_funcs _ s.values once)
  ]

  observe-clear_values :
      (s : Settings)
      → count f s.changed_funcs ≡ 1
      → observe f (clear_values react s).1 s.values ≡ []
  unfolding clear_values
  observe-clear_values s once =
      rw (count-no_funcs f s.changed_funcs once)
        (observe-clear_calls f s.changed_funcs s.values once)

module _ (react : ℕ → Change → Map Variant → Map Variant) (quiet : IsQuiet react) (f : ℕ) where
  observe-execute :
      (c : Command) (s : Settings)
      → count f s.changed_funcs ≡ 1
      → observe f (execute react c s).1 s.values ≡ (execute react c s).0.values
  unfolding execute
  observe-execute (set_command key value) s once =
      observe-set_value react f key value s once ∙ sym (set_value-values react quiet key value s)
  observe-execute (remove_command key) s once =
      observe-remove_value react f key s once ∙ sym (remove_value-values react quiet key s)
  observe-execute clear_command s once =
      observe-clear_values react f s once ∙ sym (clear_values-values react quiet s)

-- When the registered functions leave the settings alone, one that is registered once and follows every
-- call from a copy of the values on has, after any sequence of `setValue`, `removeValue` and `clear`,
-- exactly the values of the settings.
pub observe-execute_all :
    (react : ℕ → Change → Map Variant → Map Variant) (f : ℕ) (commands : List Command)
    (s : Settings)
    → IsQuiet react
    → count f s.changed_funcs ≡ 1
    → observe f (execute_all react commands s).1 s.values ≡ (execute_all react commands s).0.values
unfolding execute_all
observe-execute_all react f [] s quiet once = unfold observe in refl
observe-execute_all react f (c ∷ cs) s quiet once =
    observe-append f (execute react c s).1 (execute_all react cs (execute react c s).0).1 s.values
    ∙ rw (observe-execute react quiet f c s once) (
        observe-execute_all react f cs (execute react c s).0 quiet
          (rw (execute-changed_funcs react c s) once))
