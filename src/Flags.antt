-- ===== src/Flags.antt =====
-- flagparse/flags.go: a configuration from defaults, a file and the command line. The reflection over
-- a structure is a walk over a list of its fields, and a configuration is a map from names of fields.
pub mod FieldNames
pub mod Values
pub mod Precedence
pub mod UploadConfig
mod Tests
use file_upload.Prelude.{
  Bool, true, false, ◌||◌, if◌then◌else◌, not, Option, none, some, List, [], ◌∷◌, ◌++◌, ◌==◌,
}
use file_upload.Prelude.Text.{Text, bytes, is_empty, text_beq, text_eq}
use file_upload.Prelude.Dict.{Dict, lookup, insert}
use file_upload.Prelude.Result.{Result, ok, err, ◌>>=◌, ◌>>◌, guard}
use file_upload.Flags.FieldNames.{to_field_name, to_flag_name}
use file_upload.Flags.Values.{
  Value, text, flag, number, custom, Kind, string_kind, bool_kind, int_kind, other_kind, value_kind,
  parse_bool, atoi, replace_names,
}

-- A field, with its tags 'def' and 'descr'.
pub record Leaf (V : Type 0) : Type 0 where
  pub name : Text
  pub exported : Bool
  pub kind : Kind V
  pub def : Text
  pub descr : Text

-- The fields of a structure in their order. A field that is a structure is embedded, as all are in
-- `UploadConfig`, so that its fields are found by their own names.
pub data Fields (V : Type 0) : Type 0 where
  end : Fields V
  leaf : Leaf V → Fields V → Fields V
  struct : Text → Bool → Fields V → Fields V → Fields V

-- A flag that is defined: its default, if it is given one, and its description.
pub record FlagVar (V : Type 0) : Type 0 where
  pub name : Text
  pub default : Option (Value V)
  pub description : Text

pub record InitState (V : Type 0) : Type 0 where
  pub values : Dict (Value V)
  pub flags : List (FlagVar V)

unfoldable pub skipped : List Text → Text → Bool
unfolding text_beq
skipped [] name = false
skipped (s ∷ skip) name = s == name || skipped skip name

-- Whether the loop of `initConfigValues` passes a field over.
unfoldable pub passed_over : List Text → Text → Bool → Bool
unfolding skipped to_flag_name
passed_over skip name exported = skipped skip (to_flag_name name) || not exported

module _ {V : Type 0} where
  -- The default of a field, and `none` for a type that no case handles.
  unfoldable pub default_value : Kind V → Text → Option (Value V)
  unfolding parse_bool atoi
  default_value string_kind def = some (text def)
  default_value bool_kind def = some (flag (parse_bool def))
  default_value int_kind def = some (number (atoi def))
  default_value (value_kind set) def = some (custom (set def).0)
  default_value other_kind def = none

  -- The default of a flag: `flag.Var` is given none.
  unfoldable pub flag_default : Kind V → Text → Option (Value V)
  unfolding default_value
  flag_default (value_kind set) def = none
  flag_default kind def = default_value kind def

  set_default : Text → Option (Value V) → Dict (Value V) → Dict (Value V)
  unfolding insert
  set_default name none cfg = cfg
  set_default name (some v) cfg = insert name v cfg

  define_flag : Kind V → FlagVar V → List (FlagVar V) → List (FlagVar V)
  define_flag other_kind f flags = flags
  define_flag kind f flags = flags ++ (f ∷ [])

  module _ (names : Option (Dict Text)) (skip : List Text) (flag_it : Bool) where
    -- The body of the loop of `initConfigValues`, for a field that is no structure.
    unfoldable pub init_leaf : Leaf V → InitState V → InitState V
    unfolding set_default define_flag flag_default default_value replace_names
    init_leaf l st =
        let def = replace_names names l.def in
        let f : FlagVar V = record {
          name = to_flag_name l.name;
          default = flag_default l.kind def;
          description = replace_names names l.descr;
        } in
        if flag_it
        then record st { flags = define_flag l.kind f st.flags }
        else record st { values = set_default l.name (default_value l.kind def) st.values }

    -- `initConfigValues`
    unfoldable pub init_config_values : Fields V → InitState V → InitState V
    unfolding init_leaf passed_over
    init_config_values end st = st
    init_config_values (leaf l rest) st =
        init_config_values rest (if passed_over skip l.name l.exported then st else init_leaf l st)
    init_config_values (struct name exported inner rest) st =
        let st' = init_config_values inner st in
        init_config_values rest (if passed_over skip name exported then st else st')

  abbrev pub nothing : InitState V
  nothing = record { values = []; flags = [] }

  -- Whether `FieldByName` finds a field.
  unfoldable pub has_field : Fields V → Text → Bool
  unfolding text_beq
  has_field end name = false
  has_field (leaf l rest) name = l.name == name || has_field rest name
  has_field (struct s exported inner rest) name =
      s == name || (has_field inner name || has_field rest name)

  -- `ApplyFlags`, over the flags that were set.
  unfoldable pub apply_flags : Fields V → Dict (Value V) → Dict (Value V) → Dict (Value V)
  unfolding has_field to_field_name insert
  apply_flags fields [] cfg = cfg
  apply_flags fields ((name, v) ∷ set) cfg =
      let field = to_field_name name in
      apply_flags fields set (if has_field fields field then insert field v cfg else cfg)

  unfoldable pub set_all : Dict (Value V) → Dict (Value V) → Dict (Value V)
  unfolding insert
  set_all [] cfg = cfg
  set_all ((name, v) ∷ vs) cfg = set_all vs (insert name v cfg)

-- What `LoadJSON` meets: no such file, a file that cannot be read or is no JSON of the structure, or
-- the fields that it sets.
pub data JsonFile (V : Type 0) : Type 0 where
  missing broken : Text → JsonFile V
  loaded : Dict (Value V) → JsonFile V

-- What `flag.Parse` reads: the two flags of `ParseFlags` itself, and all flags that were set.
pub record CommandLine (V : Type 0) : Type 0 where
  pub print_version : Bool
  pub config_file : Text
  pub set : Dict (Value V)

-- The ways in which `ParseFlags` ends the process.
pub data Exit : Type 0 where
  usage : Text → Exit
  version_printed : Exit
  bad_config_file : Text → Exit

unfoldable pub use_file :
    {V : Type 0} → JsonFile V → Dict (Value V) → Result Exit (Option Text × Dict (Value V))
unfolding set_all
use_file (missing e) cfg = ok (some e, cfg)
use_file (broken e) cfg = err (bad_config_file e)
use_file (loaded vs) cfg = ok (none, set_all vs cfg)

module _ {V : Type 0} (load_json : Text → JsonFile V) where
  -- What follows the defaults in `LoadConfigFromFile`: the warning and the configuration.
  unfoldable pub load_file : Text → Dict (Value V) → Result Exit (Option Text × Dict (Value V))
  unfolding use_file
  load_file file cfg = if is_empty file then ok (none, cfg) else use_file (load_json file) cfg

  -- `LoadConfigFromFile`, into a zero configuration.
  unfoldable pub load_config_from_file :
      Text → Fields V → Option (Dict Text) → List Text → Result Exit (Option Text × Dict (Value V))
  unfolding init_config_values load_file
  load_config_from_file file fields names skip =
      load_file file (init_config_values names skip false fields nothing).values

  -- `ParseFlags`, with the rest of what it returns. `flag_parse` is `flag.Parse`.
  unfoldable pub parse_flags :
      (List (FlagVar V) → Result Text (CommandLine V))
      → Fields V
      → Dict Text
      → Result Exit (Option Text × Dict (Value V))
  unfolding load_config_from_file apply_flags
  parse_flags flag_parse fields names =
      elim (flag_parse (init_config_values (some names) [] true fields nothing).flags) [
        | err e ↦ err (usage e)
        | ok line ↦ (do
          guard (not line.print_version) version_printed
          (warning, cfg) ← load_config_from_file line.config_file fields (some names) []
          ok (warning, apply_flags fields line.set cfg))
      ]
