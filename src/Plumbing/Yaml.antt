-- ===== src/Plumbing/Yaml.antt =====
-- YAML documents as plumbing/yaml_files.py loads and edits them: a mapping's keys are texts, and any
-- value that no reader looks into is kept by its `str`.
pub mod Laws
use lab_charts.Base.{Option, none, some, list_eq, nat_eq, ◌==◌, if◌then◌else◌, Text, text}

mutual
  pub data Yaml : Type 0 where
    null : Yaml
    string : Text → Yaml
    scalar : (shown : Text) → Yaml
    mapping : Entries → Yaml

  pub data Entries : Type 0 where
    no_entries : Entries
    entry : Text → Yaml → Entries → Entries

-- `str` of a mapping is the library's
unfoldable pub str_of : (Entries → Text) → Yaml → Text
str_of show_mapping null = text "None"
str_of show_mapping (string t) = t
str_of show_mapping (scalar t) = t
str_of show_mapping (mapping es) = show_mapping es

-- `mapping.get(key)`
unfoldable pub look : Text → Entries → Option Yaml
look key no_entries = none
look key (entry k v rest) = let later = look key rest in if k == key then some v else later

-- `mapping[key] = value`
unfoldable pub put : Text → Yaml → Entries → Entries
put key value no_entries = entry key value no_entries
put key value (entry k v rest) =
    let later = put key value rest in if k == key then entry k value rest else entry k v later

-- a change of the value under a key, where there is one
unfoldable pub modify : Text → (Yaml → Yaml) → Entries → Entries
modify key f no_entries = no_entries
modify key f (entry k v rest) =
    let later = modify key f rest in if k == key then entry k (f v) rest else entry k v later

-- a value as a mapping
unfoldable pub entries_of : Option Yaml → Option Entries
entries_of (some (mapping es)) = some es
entries_of _ = none

-- a change of what a mapping holds
unfoldable pub inside : (Entries → Entries) → Yaml → Yaml
inside f (mapping es) = mapping (f es)
inside f other = other
