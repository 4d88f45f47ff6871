-- ===== src/Times.antt =====
-- client/duration.go and client/xtime.go: durations and times as values of flags and of JSON. The
-- package time is an argument.
use file_upload.Prelude.{if◌then◌else◌, Option, none, some, [], ◌==◌}
use file_upload.Prelude.Text.{Text, bytes, is_empty, text_beq, text_eq}
use file_upload.Prelude.Int.{ℤ, pos}
use file_upload.Prelude.Result.{Result, ok, err}
use file_upload.Uploads.Status.{Time}

-- What the two files use of the package time: durations, and times in the layout RFC 3339, plain or
-- between double quotes.
pub record TimePackage : Type 0 where
  pub parse_duration : Text → Result Text ℤ
  pub duration_text : ℤ → Text
  pub parse_time : Text → Result Text Time
  pub parse_quoted : Text → Result Text Time
  pub format : Time → Text

-- A JSON value as `UnmarshalJSON` tells them apart.
pub data JsonValue : Type 0 where
  string : Text → JsonValue
  another : JsonValue

pub data DurationError : Type 0 where
  bad_json : Text → DurationError
  bad_duration : Text → DurationError
  invalid_duration : DurationError
  parse_error : DurationError

module _ (time : TimePackage) where
  -- `Duration.UnmarshalJSON`, on what json.Unmarshal reads.
  unfoldable pub duration_of_json : Result Text JsonValue → Result DurationError ℤ
  duration_of_json (err e) = err (bad_json e)
  duration_of_json (ok (string s)) = elim (time.parse_duration s) [
    | err e ↦ err (bad_duration e)
    | ok d ↦ ok d
  ]
  duration_of_json (ok another) = err invalid_duration

  -- `Duration.Set`: the value that it leaves, with its error. A failure leaves 0.
  unfoldable pub set_duration : Text → ℤ × Option DurationError
  set_duration s = elim (time.parse_duration s) [
    | err e ↦ (pos 0, some parse_error)
    | ok d ↦ (d, none)
  ]

  -- `Duration.String`
  unfoldable pub duration_string : ℤ → Text
  duration_string d = time.duration_text d

  -- `Xtime.UnmarshalJSON`, on a value that holds `t`. An error ends the process.
  unfoldable pub xtime_of_json : Text → Option Time → Result Text (Option Time)
  unfolding text_beq
  xtime_of_json b t =
      if b == bytes "null"
      then ok t
      else (elim (time.parse_quoted b) [ err e ↦ err e | ok result ↦ ok (some result) ])

  -- `Xtime.Set`, on a value that holds `t`. An error ends the process.
  unfoldable pub set_xtime : Text → Option Time → Result Text (Option Time)
  set_xtime s t =
      if is_empty s
      then ok t
      else (elim (time.parse_time s) [ err e ↦ err e | ok result ↦ ok (some result) ])

  -- `Xtime.String`
  unfoldable pub xtime_string : Option Time → Text
  xtime_string none = []
  xtime_string (some t) = time.format t
