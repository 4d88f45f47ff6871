-- ===== src/Uploaders.antt =====
-- uploaders/common.go: options of the 'start' operation and what the uploaders share.
mod Tests
pub mod Extract
pub mod Http
pub mod Aws
pub mod Azure
pub mod Choice
pub mod Options
use file_upload.Prelude.{Bool, if◌then◌else◌, Option, none, some, List, [], ◌∷◌, ◌++◌}
use file_upload.Prelude.Text.{Text, bytes, has_prefix, trim_prefix}
use file_upload.Prelude.Dict.{Dict, lookup, insert}

-- An index of a `map[string]string`: "" if the key is missing.
unfoldable pub at : Dict Text → Text → Text
unfolding lookup
at options key = elim (lookup key options) [ none ↦ [] | some v ↦ v ]

-- The body of the loop of `ExtractDictionary`.
unfoldable pub extract_entry : Text → Text → Text → Dict Text → Dict Text
extract_entry prefix key value info =
    if has_prefix key prefix then insert (trim_prefix key prefix) value info else info

-- The loop, over the rest of the map.
unfoldable pub extract_into : Dict Text → Dict Text → Text → Dict Text
unfolding has_prefix trim_prefix insert extract_entry
extract_into info [] prefix = info
extract_into info ((key, value) ∷ rest) prefix =
    extract_into (extract_entry prefix key value info) rest prefix

-- `ExtractDictionary`
unfoldable pub extract_dictionary : Dict Text → Text → Dict Text
unfolding extract_into
extract_dictionary options prefix = extract_into [] options prefix

-- The errors of the constructors of uploaders.
pub data OptionError : Type 0 where
  url_not_specified : OptionError
  unsupported_method : Text → OptionError
  missing_parameter : Text → OptionError
  unknown_provider : Text → OptionError
  aws_config : Text → OptionError

-- `Error()` of such an error; the AWS library words its own.
unfoldable pub error_text : OptionError → Text
error_text url_not_specified = bytes "upload URL not specified"
error_text (unsupported_method m) = bytes "unsupported HTTP method: " ++ m
error_text (missing_parameter p) = bytes "required parameter '" ++ (p ++ bytes "' missing or empty")
error_text (unknown_provider s) = bytes "unknown storage provider '" ++ (s ++ bytes "'")
error_text (aws_config e) = e
