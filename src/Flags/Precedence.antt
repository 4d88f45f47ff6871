-- ===== src/Flags/Precedence.antt =====
-- flagparse/flags.go: where the value of a field of the configuration comes from.
use file_upload.Prelude.{
  ◌≡◌, refl, ap, sym, ◌∙◌, true, false, not, if◌then◌else◌, Option, none, some, List, [], ◌∷◌,
  arith, Bool-cases, inl, inr, Option-cases,
}
use file_upload.Prelude.Text.{Text, text_beq, text_beq_iff, text_beq_refl, text_beq_ne}
use file_upload.Prelude.Dict.{Dict, IsMap, lookup, lookup-insert, insert}
use file_upload.Prelude.Result.{Result, ok, >>=-ok, guard}
use file_upload.Flags.FieldNames.{
  to_field_name, to_flag_name, IsFieldName, IsFlagName, to_field_name-to_flag_name,
  to_flag_name-to_field_name,
}
use file_upload.Flags.Values.{Value, replace_names}
use file_upload.Flags.{
  version_printed, use_file, is_empty, Leaf, Fields, end, leaf, struct, InitState, nothing,
  passed_over, default_value, init_leaf, init_config_values, has_field, apply_flags, set_all,
  set_default, JsonFile, missing, broken, loaded, CommandLine, Exit, load_file,
  load_config_from_file, parse_flags, FlagVar,
}

abbrev pub or_else {ℓ} : {A : Type ℓ} → Option A → Option A → Option A
or_else none o = o
or_else (some a) o = some a

or_else_assoc {ℓ} :
    {A : Type ℓ} (o p q : Option A) → or_else (or_else o p) q ≡ or_else o (or_else p q)
or_else_assoc none p q = refl
or_else_assoc (some a) p q = refl

module _ {V : Type 0} (names : Option (Dict Text)) (skip : List Text) where
  -- The default of the field `n`, if the loop sets one: that of the last field of this name.
  abbrev pub default_of : Text → Fields V → Option (Value V)
  default_of n end = none
  default_of n (leaf l rest) = or_else (default_of n rest) (
      if passed_over skip l.name l.exported
      then none
      else if text_beq l.name n
      then default_value l.kind (replace_names names l.def)
      else none)
  default_of n (struct name exported inner rest) =
      or_else (default_of n rest)
        (if passed_over skip name exported then none else default_of n inner)

  lookup-init_leaf :
      (n : Text) (l : Leaf V) (st : InitState V)
      → lookup n (init_leaf names skip false l st).values
        ≡ or_else
            (if text_beq l.name n then default_value l.kind (replace_names names l.def) else none)
            (lookup n st.values)
  unfolding init_leaf set_default
  lookup-init_leaf n l st = elim (Option-cases (default_value l.kind (replace_names names l.def))) [
    | inl e ↦ rw e (ground arith)
    | inr (v, e) ↦ rw e (lookup-insert n l.name v st.values ∙ ground arith)
  ]

  lookup-init_config_values :
      (n : Text) (fields : Fields V) (st : InitState V)
      → lookup n (init_config_values names skip false fields st).values
        ≡ or_else (default_of n fields) (lookup n st.values)
  unfolding init_config_values
  lookup-init_config_values n end st = refl
  lookup-init_config_values n (leaf l rest) st =
      lookup-init_config_values n rest
        (if passed_over skip l.name l.exported then st else init_leaf names skip false l st)
      ∙ elim (Bool-cases (passed_over skip l.name l.exported)) [
        | inl e ↦ rw e (sym (or_else_assoc (default_of n rest) none (lookup n st.values)))
        | inr e ↦ rw e (
            ap (or_else (default_of n rest)) (lookup-init_leaf n l st)
            ∙ sym (or_else_assoc (default_of n rest) _ (lookup n st.values)))
      ]
  lookup-init_config_values n (struct name exported inner rest) st =
      let st' = init_config_values names skip false inner st in
      lookup-init_config_values n rest (if passed_over skip name exported then st else st')
      ∙ elim (Bool-cases (passed_over skip name exported)) [
        | inl e ↦ rw e (sym (or_else_assoc (default_of n rest) none (lookup n st.values)))
        | inr e ↦ rw e (
            ap (or_else (default_of n rest)) (lookup-init_config_values n inner st)
            ∙ sym (or_else_assoc (default_of n rest) (default_of n inner) (lookup n st.values)))
      ]

other_field :
    (n name : Text)
    → IsFlagName name
    → text_beq name (to_flag_name n) ≡ false
    → text_beq (to_field_name name) n ≡ false
other_field n name flag e = text_beq_ne (to_field_name name) n (λ q.
    let same : name ≡ to_flag_name n =
      sym (to_flag_name-to_field_name name flag) ∙ ap to_flag_name q in
    cc ((text_beq_iff name (to_flag_name n)).1 same, e))

module _ {V : Type 0} where
  -- Every flag that was set has the form of the name of a flag.
  abbrev pub AllFlagNames : Dict (Value V) → Type 0
  AllFlagNames [] = Unit
  AllFlagNames ((name, v) ∷ set) = IsFlagName name × AllFlagNames set

  unchanged_unless :
      (n : Text) (fields : Fields V) (name : Text) (v : Value V) (cfg : Dict (Value V))
      → text_beq (to_field_name name) n ≡ false
      → lookup n
          (if has_field fields (to_field_name name) then insert (to_field_name name) v cfg else cfg)
        ≡ lookup n cfg
  unchanged_unless n fields name v cfg e =
      elim (Bool-cases (has_field fields (to_field_name name))) [
        | inl h ↦ rw h (lookup-insert n (to_field_name name) v cfg ∙ rw e)
        | inr h ↦ rw h
      ]

  lookup-apply_flags :
      (n : Text) (fields : Fields V) (set cfg : Dict (Value V))
      → IsFieldName n
      → has_field fields n ≡ true
      → IsMap set
      → AllFlagNames set
      → lookup n (apply_flags fields set cfg) ≡ or_else (lookup (to_flag_name n) set) (lookup n cfg)
  unfolding apply_flags lookup
  lookup-apply_flags n fields [] cfg field has m all = refl
  lookup-apply_flags n fields ((name, v) ∷ set) cfg field has m all =
      lookup-apply_flags n fields set _ field has m.1 all.1
      ∙ elim (Bool-cases (text_beq name (to_flag_name n))) [
        | inl e ↦
            let same : name ≡ to_flag_name n = (text_beq_iff name (to_flag_name n)).0 e in
            let found : to_field_name name ≡ n =
              ap to_field_name same ∙ to_field_name-to_flag_name n field in
            let absent : lookup (to_flag_name n) set ≡ none =
              ap (λ k. lookup k set) (sym same) ∙ m.0 in
            rw (e, absent, found, has) (lookup-insert n n v cfg ∙ rw (text_beq_refl n))
        | inr e ↦ rw e (
            ap (or_else (lookup (to_flag_name n) set))
              (unchanged_unless n fields name v cfg (other_field n name all.0 e)))
      ]

  lookup-set_all :
      (n : Text) (vs cfg : Dict (Value V))
      → IsMap vs
      → lookup n (set_all vs cfg) ≡ or_else (lookup n vs) (lookup n cfg)
  unfolding set_all lookup
  lookup-set_all n [] cfg m = refl
  lookup-set_all n ((name, v) ∷ vs) cfg m =
      lookup-set_all n vs (insert name v cfg) m.1
      ∙ ground (arith, m.0, lookup-insert n name v cfg, text_beq_iff name n)

-- The fields that a file sets.
abbrev pub values_of : {V : Type 0} → JsonFile V → Dict (Value V)
values_of (missing e) = []
values_of (broken e) = []
values_of (loaded vs) = vs

-- The fields that the configuration file sets, if it is named and can be read.
abbrev pub file_values : {V : Type 0} → (Text → JsonFile V) → Text → Dict (Value V)
file_values load_json file = if is_empty file then [] else values_of (load_json file)

or_else-none {ℓ} : {A : Type ℓ} (o : Option A) → or_else o none ≡ o
or_else-none none = refl
or_else-none (some a) = refl

lookup-use_file :
    {V : Type 0} (n : Text) (file : JsonFile V) (cfg : Dict (Value V)) {warning : Option Text}
    {result : Dict (Value V)}
    → IsMap (values_of file)
    → use_file file cfg ≡ ok (warning, result)
    → lookup n result ≡ or_else (lookup n (values_of file)) (lookup n cfg)
unfolding use_file lookup
lookup-use_file n (missing e) cfg m h = ground (arith, h)
lookup-use_file n (broken e) cfg m h = cc h
lookup-use_file n (loaded vs) cfg m h = ground (arith, h, lookup-set_all n vs cfg m)

module _ {V : Type 0} (load_json : Text → JsonFile V) where
  lookup-load_file :
      (n file : Text) (cfg : Dict (Value V)) {warning : Option Text} {result : Dict (Value V)}
      → IsMap (file_values load_json file)
      → load_file load_json file cfg ≡ ok (warning, result)
      → lookup n result ≡ or_else (lookup n (file_values load_json file)) (lookup n cfg)
  unfolding load_file lookup
  lookup-load_file n [] cfg m h = ground (arith, h)
  lookup-load_file n (c ∷ file) cfg m h = lookup-use_file n (load_json (c ∷ file)) cfg m h

  -- A field of a configuration has the value that the command line gives its flag; if the flag was
  -- not set, the value in the configuration file; and if the file sets none, its default.
  pub parse_flags-precedence :
      (flag_parse : List (FlagVar V) → Result Text (CommandLine V)) (fields : Fields V)
      (names : Dict Text) (n : Text) (line : CommandLine V) {warning : Option Text}
      {cfg : Dict (Value V)}
      → IsFieldName n
      → has_field fields n ≡ true
      → flag_parse (init_config_values (some names) [] true fields nothing).flags ≡ ok line
      → IsMap line.set
      → AllFlagNames line.set
      → IsMap (file_values load_json line.config_file)
      → parse_flags load_json flag_parse fields names ≡ ok (warning, cfg)
      → lookup n cfg
        ≡ or_else (lookup (to_flag_name n) line.set) (
            or_else
              (lookup n (file_values load_json line.config_file))
              (default_of (some names) [] n fields))
  unfolding parse_flags load_config_from_file lookup
  parse_flags-precedence flag_parse fields names n line field has parsed m all f h =
      let (done, p, rest) =
        >>=-ok (guard (not line.print_version) version_printed) _ (rw (parsed, parse_flags) at h) in
      let ((w, cfg'), q, last) =
        >>=-ok (load_config_from_file load_json line.config_file fields (some names) []) _ rest in
      sym (ap (lookup n) (results last))
      ∙ lookup-apply_flags n fields line.set cfg' field has m all
      ∙ ap (or_else (lookup (to_flag_name n) line.set)) (
          lookup-load_file n line.config_file _ f q
          ∙ ap (or_else (lookup n (file_values load_json line.config_file))) (
              lookup-init_config_values (some names) [] n fields nothing
              ∙ or_else-none (default_of (some names) [] n fields)))
    where
      results :
          {w w' : Option Text} {a b : Dict (Value V)}
          → ◌≡◌ {A = Result Exit (Option Text × Dict (Value V))} (ok (w, a)) (ok (w', b))
          → a ≡ b
      results h = cc h
