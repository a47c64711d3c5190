-- ===== src/Fib/Binding.antt =====
-- `read_binding_table` of fogrs-core/src/service_request_manager.rs. A YAML value is a parameter of
-- the model through the two views that the code takes of it.
use rt_fogros.Prelude.{Text, Option, none, some, List, [], ◌∷◌, text_eq}
use rt_fogros.Prelude.Assoc.{Assoc, insert}

-- What the environment and the file give: no variable or no readable YAML, no mapping under
-- `bindings`, or the mapping's entries, a key or value being `none` where it is no string.
pub data ConfigFile : Type 0 where
  unreadable : ConfigFile
  no_bindings : ConfigFile
  bindings : List (Option Text × Option Text) → ConfigFile

-- The loop over the mapping; `none` is the early return of an error.
unfoldable pub read_entries :
    Assoc Text Text → List (Option Text × Option Text) → Option (Assoc Text Text)
read_entries table [] = some table
read_entries table ((some key, some value) ∷ rest) = read_entries (insert key value table) rest
read_entries table ((some key, none) ∷ rest) = none
read_entries table ((none, value) ∷ rest) = none

-- An empty table is an error too.
abbrev non_empty : Option (Assoc Text Text) → Option (Assoc Text Text)
non_empty none = none
non_empty (some []) = none
non_empty (some (e ∷ table)) = some (e ∷ table)

-- The error becomes `None` in `service_connection_fib_handler`.
unfoldable pub read_binding_table : ConfigFile → Option (Assoc Text Text)
unfolding read_entries
read_binding_table unreadable = none
read_binding_table no_bindings = none
read_binding_table (bindings entries) = non_empty (read_entries [] entries)
