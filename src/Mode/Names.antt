-- ===== src/Mode/Names.antt =====
-- client/mode.go: the names of the modes.
use file_upload.Prelude.{ap, ◌∙◌, ◌≡◌, refl, ◌↔◌, arith, []}
use file_upload.Prelude.Text.{Text, bytes, text_beq_iff}
use file_upload.Prelude.Result.{ok}
use file_upload.Mode.{
  AccessMode, na, strict, lax, scoped, mode_string, set_mode, JsonText, marshal_json,
  unmarshal_json,
}

set_mode-mode_string : (m : AccessMode) → set_mode (mode_string m) ≡ ok m
unfolding set_mode
set_mode-mode_string na = refl
set_mode-mode_string strict = refl
set_mode-mode_string lax = refl
set_mode-mode_string scoped = refl

mode_string_of_set_mode : (v : Text) (m : AccessMode) → set_mode v ≡ ok m → v ≡ mode_string m
unfolding set_mode
mode_string_of_set_mode v m h = ground (
  arith,
  h,
  text_beq_iff v (bytes "strict"),
  text_beq_iff v (bytes "lax"),
  text_beq_iff v (bytes "scoped"),
  text_beq_iff v [],
)

-- `Set` accepts a text exactly as the name of the mode that it sets.
pub set_mode-ok_iff : (v : Text) (m : AccessMode) → (set_mode v ≡ ok m) ↔ (v ≡ mode_string m)
set_mode-ok_iff v m = (mode_string_of_set_mode v m, λ e. ap set_mode e ∙ set_mode-mode_string m)

-- A mode that is written as JSON is read back, where JSON reads back the names of the modes that it
-- writes.
pub unmarshal_json-marshal_json :
    (json : JsonText)
    → ((m : AccessMode) → json.decode (json.encode (mode_string m)) ≡ ok (mode_string m))
    → (m : AccessMode) → unmarshal_json json (marshal_json json m) ≡ ok m
unfolding unmarshal_json marshal_json
unmarshal_json-marshal_json json law m = rw (law m, unmarshal_json) (rw (set_mode-mode_string m))
