-- ===== src/Uploaders/Extract.antt =====
-- uploaders/common.go: `ExtractDictionary`, as a function on maps.
use file_upload.Prelude.{◌≡◌, refl, ◌∙◌, Option, none, some, [], ◌∷◌, ◌++◌, arith, if◌then◌else◌}
use file_upload.Prelude.Text.{
  Text, trim_prefix, has_prefix-append, trim_prefix-append, append-trim_prefix, text_beq,
  text_beq_iff,
}
use file_upload.Prelude.Dict.{Dict, IsMap, lookup, lookup-insert, insert-IsMap}
use file_upload.Uploaders.{extract_entry, extract_into, extract_dictionary}

-- One round of the loop binds `k` exactly if it visits the key `prefix ++ k`.
lookup_round :
    (k prefix key value : Text) (info : Dict Text)
    → lookup k (extract_entry prefix key value info)
      ≡ (if text_beq key (prefix ++ k) then some value else lookup k info)
unfolding extract_entry
lookup_round k prefix key value info = ground (
  arith,
  lookup-insert k (trim_prefix key prefix) value info,
  text_beq_iff key (prefix ++ k),
  text_beq_iff (trim_prefix key prefix) k,
  trim_prefix-append prefix k,
  has_prefix-append prefix k,
  append-trim_prefix key prefix,
)

lookup-extract_into :
    (k prefix : Text) (info options : Dict Text)
    → IsMap options
    → lookup k (extract_into info options prefix)
      ≡ (elim (lookup (prefix ++ k) options) [ none ↦ lookup k info | some v ↦ some v ])
unfolding extract_into lookup
lookup-extract_into k prefix info [] m = refl
lookup-extract_into k prefix info ((key, value) ∷ rest) m =
    lookup-extract_into k prefix (extract_entry prefix key value info) rest m.1
    ∙ ground (arith, m.0, lookup_round k prefix key value info, text_beq_iff key (prefix ++ k))

-- Under each name the extracted map holds what the options hold under the prefixed name.
pub lookup-extract_dictionary :
    (k prefix : Text) (options : Dict Text)
    → IsMap options
    → lookup k (extract_dictionary options prefix) ≡ lookup (prefix ++ k) options
unfolding extract_dictionary lookup
lookup-extract_dictionary k prefix options m =
    lookup-extract_into k prefix [] options m ∙ option_id (lookup (prefix ++ k) options)
  where
    option_id : (o : Option Text) → (elim o [ none ↦ none | some v ↦ some v ]) ≡ o
    option_id o = ground arith

extract_into-IsMap :
    (prefix : Text) (info options : Dict Text)
    → IsMap info
    → IsMap (extract_into info options prefix)
unfolding extract_into extract_entry
extract_into-IsMap prefix info [] m = m
extract_into-IsMap prefix info ((key, value) ∷ rest) m =
    extract_into-IsMap prefix (extract_entry prefix key value info) rest
      (ground (arith, insert-IsMap (trim_prefix key prefix) value info m))

-- What `ExtractDictionary` returns is a map.
pub extract_dictionary-IsMap :
    (prefix : Text) (options : Dict Text) → IsMap (extract_dictionary options prefix)
unfolding extract_dictionary
extract_dictionary-IsMap prefix options = extract_into-IsMap prefix [] options tt
