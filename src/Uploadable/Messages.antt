-- ===== src/Uploadable/Messages.antt =====
-- `messageHandler`: which messages reach an operation, and what is replied.
pub mod Routing
use file_upload.Prelude.{
  ℕ, Bool, true, false, not, if◌then◌else◌, Option, none, some, List, [], ◌∷◌, ◌++◌, ◌==◌,
}
use file_upload.Prelude.Text.{Text, bytes, has_prefix, trim_prefix, text_beq, text_eq}
use file_upload.Uploadable.{ErrorResponse}

-- What the handler reads of an envelope. `value` is none for nil, and `is_map` says whether it is a
-- JSON object.
pub record Envelope : Type 0 where
  pub path : Text
  pub device : Text
  pub value : Option Text
  pub is_map : Bool
  pub response_required : Bool

-- The operations that the handler knows; any other goes to the customizer.
pub data Operation : Type 0 where
  start trigger cancel activate deactivate : Operation
  other : Text → Operation

unfoldable pub operation_of : Text → Operation
unfolding text_beq
operation_of name =
    if name == bytes "start"
    then start
    else if name == bytes "trigger"
    then trigger
    else if name == bytes "cancel"
    then cancel
    else if name == bytes "activate"
    then activate
    else if name == bytes "deactivate"
    then deactivate
    else other name

abbrev pub features_prefix : Text → Text
features_prefix feature = bytes "/features/" ++ feature

abbrev pub operation_prefix : Text → Text
operation_prefix feature = bytes "/features/" ++ (feature ++ bytes "/inbox/messages/")

unfoldable pub value_accepted : Envelope → Bool
value_accepted msg = elim msg.value [ none ↦ true | some v ↦ msg.is_map ]

-- The guards of the handler: the operation that a message calls, if it calls one.
unfoldable pub route : Text → Text → Envelope → Option Operation
unfolding value_accepted operation_of has_prefix trim_prefix text_beq
route feature device msg =
    let operation = trim_prefix msg.path (operation_prefix feature) in
    if not (has_prefix msg.path (features_prefix feature))
    then none
    else if not (msg.device == device)
    then none
    else if not (value_accepted msg)
    then none
    else if operation == msg.path
    then none
    else some (operation_of operation)

-- The status of the reply: 204, or that of the error.
unfoldable pub reply_status : Option ErrorResponse → ℕ
reply_status none = 204
reply_status (some e) = e.status

pub record Reply : Type 0 where
  pub path : Text
  pub status : ℕ
  pub value : Option ErrorResponse

-- strings.Replace of the first "/inbox/" by "/outbox/".
unfoldable pub switch_to_outbox : Text → Text
unfolding has_prefix trim_prefix
switch_to_outbox [] = []
switch_to_outbox (c ∷ s) =
    let rest = switch_to_outbox s in
    if has_prefix (c ∷ s) (bytes "/inbox/")
    then bytes "/outbox/" ++ trim_prefix (c ∷ s) (bytes "/inbox/")
    else c ∷ rest

unfoldable pub reply_of : Envelope → Option ErrorResponse → Option Reply
unfolding reply_status switch_to_outbox
reply_of msg e =
    if msg.response_required
    then some (record { path = switch_to_outbox msg.path; status = reply_status e; value = e })
    else none
