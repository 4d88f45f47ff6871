-- ===== src/Mode.antt =====
-- client/mode.go: the access mode that restricts which files can be requested for upload.
use file_upload.Prelude.{Bool, if◌then◌else◌, ◌==◌, []}
use file_upload.Prelude.Text.{Text, bytes, text_beq, text_eq}
use file_upload.Prelude.Result.{Result, ok, err, ◌>>=◌}
pub mod Names
mod Tests

pub data AccessMode : Type 0 where
  na strict lax scoped : AccessMode

-- `String`
abbrev pub mode_string : AccessMode → Text
mode_string na = []
mode_string strict = bytes "strict"
mode_string lax = bytes "lax"
mode_string scoped = bytes "scoped"

pub data ModeError : Type 0 where
  not_accepted : ModeError
  bad_json : Text → ModeError
  invalid_value : Text → ModeError

-- `Set`
unfoldable pub set_mode : Text → Result ModeError AccessMode
unfolding text_beq
set_mode v =
    if v == mode_string strict
    then ok strict
    else if v == mode_string lax
    then ok lax
    else if v == mode_string scoped
    then ok scoped
    else if v == []
    then ok na
    else err not_accepted

-- JSON's encoding of a string.
pub record JsonText : Type 0 where
  pub encode : Text → Text
  pub decode : Text → Result Text Text

module _ (json : JsonText) where
  -- `MarshalJSON`
  unfoldable pub marshal_json : AccessMode → Text
  marshal_json m = json.encode (mode_string m)

  -- `UnmarshalJSON`
  unfoldable pub unmarshal_json : Text → Result ModeError AccessMode
  unfolding set_mode
  unmarshal_json b = elim (json.decode b) [
    | err e ↦ err (bad_json e)
    | ok s ↦ (elim (set_mode s) [ ok m ↦ ok m | err e ↦ err (invalid_value s) ])
  ]
