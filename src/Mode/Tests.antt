-- ===== src/Mode/Tests.antt =====
-- Each theorem on modes at a mode.
use file_upload.Prelude.{◌≡◌, refl}
use file_upload.Prelude.Result.{ok}
use file_upload.Mode.{strict, JsonText, marshal_json, unmarshal_json}
use file_upload.Mode.Names.{unmarshal_json-marshal_json}

abbrev plain : JsonText
plain = record { encode = λ s. s; decode = ok }

unmarshal_json-marshal_json_example : unmarshal_json plain (marshal_json plain strict) ≡ ok strict
unmarshal_json-marshal_json_example = unmarshal_json-marshal_json plain (λ m. refl) strict
