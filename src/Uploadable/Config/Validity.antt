-- ===== src/Uploadable/Config/Validity.antt =====
-- client/uploadable.go: which configurations of the feature `Validate` accepts.
use file_upload.Prelude.{◌≤◌, ◌≡◌, ◌↔◌, Bool, true, Option, none, some, arith}
use file_upload.Prelude.Int.{ℤ, pos, negsuc}
use file_upload.Prelude.Result.{ok}
use file_upload.Uploads.Status.{Time}
use file_upload.Uploadable.{UploadableConfig}
use file_upload.Uploadable.Config.{validate}

-- Whether periodic uploads are active: a time that is given makes them so.
abbrev pub active_with : Bool → Option Time → Option Time → Bool
active_with active none none = active
active_with active _ _ = true

abbrev pub InOrder : Option Time → Option Time → Type 0
InOrder (some from) (some till) = from ≤ till
InOrder _ _ = Unit

abbrev pub IsPositive : ℤ → Type 0
IsPositive (pos n) = 1 ≤ n
IsPositive (negsuc n) = ⊥

-- `Validate` accepts a configuration exactly if its period is positive and its active time does not
-- end before it starts, and it makes a configuration active that has one of the two times.
pub validate-ok_iff :
    (cfg v : UploadableConfig)
    → (validate cfg ≡ ok v) ↔ (
        IsPositive cfg.period
        × InOrder cfg.active_from cfg.active_till
        × (v ≡ record cfg { active = active_with cfg.active cfg.active_from cfg.active_till }))
unfolding validate
validate-ok_iff cfg v =
    (λ h. (ground arith, ground arith, ground arith), λ (positive, ordered, e). ground arith)
