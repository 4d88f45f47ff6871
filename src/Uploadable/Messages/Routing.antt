-- ===== src/Uploadable/Messages/Routing.antt =====
-- client/uploadable.go: which messages `messageHandler` takes.
use file_upload.Prelude.{
  ◌≡◌, ◌≢◌, refl, sym, ap, ◌∙◌, ◌↔◌, Bool, true, false, not, none, some, if◌then◌else◌, ◌++◌, arith,
  length, length-append, append_assoc, Bool-cases, inl, inr,
}
use mathlib.Core.Path.{subst}
use file_upload.Prelude.Text.{
  Text, bytes, has_prefix, trim_prefix, text_beq, text_beq_iff, text_beq_refl, text_beq_ne,
  has_prefix-append, trim_prefix-append, append-trim_prefix,
}
use file_upload.Uploadable.Messages.{
  start, trigger, cancel, activate, deactivate, other, Envelope, Operation, operation_of,
  operation_prefix, features_prefix, value_accepted, route,
}

guards_pass {ℓ} :
    {A : Type ℓ} {x y : A} (path_ok device_ok object_ok untrimmed : Bool)
    → (if not path_ok
        then none
        else if not device_ok
        then none
        else if not object_ok
        then none
        else if untrimmed
        then none
        else some x)
      ≡ some y
    → (path_ok ≡ true) × (device_ok ≡ true) × (object_ok ≡ true) × (untrimmed ≡ false) × (x ≡ y)
guards_pass true true true false h = ground arith
guards_pass true true true true h = ground arith
guards_pass true true false _ h = ground arith
guards_pass true false _ _ h = ground arith
guards_pass false _ _ _ h = ground arith

-- Which operation a name asks for; a name that is none of the five asks for another operation.
abbrev pub Names : Operation → Text → Type 0
Names start name = name ≡ bytes "start"
Names trigger name = name ≡ bytes "trigger"
Names cancel name = name ≡ bytes "cancel"
Names activate name = name ≡ bytes "activate"
Names deactivate name = name ≡ bytes "deactivate"
Names (other n) name =
    (n ≡ name)
    × (name ≢ bytes "start")
    × (name ≢ bytes "trigger")
    × (name ≢ bytes "cancel")
    × (name ≢ bytes "activate")
    × (name ≢ bytes "deactivate")

ne_of_beq : (s t : Text) → text_beq s t ≡ false → s ≢ t
ne_of_beq s t e h = let yes = (text_beq_iff s t).1 h in cc

operation_of-Names : (name : Text) → Names (operation_of name) name
unfolding operation_of
operation_of-Names name = elim (Bool-cases (text_beq name (bytes "start"))) [
  | inl e ↦ rw (e, operation_of) ((text_beq_iff name (bytes "start")).0 e)
  | inr a ↦ elim (Bool-cases (text_beq name (bytes "trigger"))) [
    | inl e ↦ rw (a, e, operation_of) ((text_beq_iff name (bytes "trigger")).0 e)
    | inr b ↦ elim (Bool-cases (text_beq name (bytes "cancel"))) [
      | inl e ↦ rw (a, b, e, operation_of) ((text_beq_iff name (bytes "cancel")).0 e)
      | inr c ↦ elim (Bool-cases (text_beq name (bytes "activate"))) [
        | inl e ↦ rw (a, b, c, e, operation_of) ((text_beq_iff name (bytes "activate")).0 e)
        | inr d ↦ elim (Bool-cases (text_beq name (bytes "deactivate"))) [
          | inl e ↦ rw (a, b, c, d, e, operation_of) ((text_beq_iff name (bytes "deactivate")).0 e)
          | inr f ↦
              rw (a, b, c, d, f, operation_of)
                (
                  refl,
                  ne_of_beq name (bytes "start") a,
                  ne_of_beq name (bytes "trigger") b,
                  ne_of_beq name (bytes "cancel") c,
                  ne_of_beq name (bytes "activate") d,
                  ne_of_beq name (bytes "deactivate") f,
                )
        ]
      ]
    ]
  ]
]

named_operation : (op : Operation) (name : Text) → Names op name → operation_of name ≡ op
unfolding operation_of
named_operation start name h = rw h refl
named_operation trigger name h = rw h refl
named_operation cancel name h = rw h refl
named_operation activate name h = rw h refl
named_operation deactivate name h = rw h refl
named_operation (other n) name (e, a, b, c, d, f) =
    rw
      (
        text_beq_ne name (bytes "start") a,
        text_beq_ne name (bytes "trigger") b,
        text_beq_ne name (bytes "cancel") c,
        text_beq_ne name (bytes "activate") d,
        text_beq_ne name (bytes "deactivate") f,
        e,
      )
      refl

module _ (feature device : Text) where
  -- A message that the handler takes: it is sent to an operation of this feature and this device, and
  -- its value is a JSON object or missing.
  pub record Calls (msg : Envelope) (name : Text) : Type 0 where
    pub path : msg.path ≡ operation_prefix feature ++ name
    pub device_id : msg.device ≡ device
    pub object : value_accepted msg ≡ true

  path-features_prefix :
      (name : Text)
      → operation_prefix feature ++ name
        ≡ features_prefix feature ++ (bytes "/inbox/messages/" ++ name)
  path-features_prefix name =
      append_assoc (bytes "/features/") (feature ++ bytes "/inbox/messages/") name
      ∙ (ap (bytes "/features/" ++◌) (append_assoc feature (bytes "/inbox/messages/") name)
          ∙ sym (append_assoc (bytes "/features/") feature (bytes "/inbox/messages/" ++ name)))

  has_prefix-path :
      (name : Text) → has_prefix (operation_prefix feature ++ name) (features_prefix feature) ≡ true
  has_prefix-path name =
      ap (λ p. has_prefix p (features_prefix feature)) (path-features_prefix name)
      ∙ has_prefix-append (features_prefix feature) (bytes "/inbox/messages/" ++ name)

  path_ne : (name : Text) → name ≢ operation_prefix feature ++ name
  path_ne name h =
      let e = ap length h ∙ length-append (operation_prefix feature) name in omega arith

  route_of_Calls :
      (msg : Envelope) (name : Text)
      → Calls msg name
      → route feature device msg ≡ some (operation_of name)
  unfolding route
  route_of_Calls msg name c =
      rw
        (
          c.path,
          has_prefix-path name,
          c.device_id,
          text_beq_refl device,
          c.object,
          trim_prefix-append (operation_prefix feature) name,
          text_beq_ne name (operation_prefix feature ++ name) (path_ne name),
        )
        refl

  path_of_trim :
      (path : Text)
      → text_beq (trim_prefix path (operation_prefix feature)) path ≡ false
      → path ≡ operation_prefix feature ++ trim_prefix path (operation_prefix feature)
  unfolding trim_prefix
  path_of_trim path h = elim (Bool-cases (has_prefix path (operation_prefix feature))) [
    | inl e ↦ sym (append-trim_prefix path (operation_prefix feature) e)
    | inr e ↦ ground (arith, text_beq_refl path)
  ]

  Calls-of_route :
      (msg : Envelope) (op : Operation)
      → route feature device msg ≡ some op
      → (name : Text) × Calls msg name × (op ≡ operation_of name)
  unfolding route
  Calls-of_route msg op h =
      let (path_ok, device_ok, object_ok, trimmed, e) =
        guards_pass (has_prefix msg.path (features_prefix feature)) (text_beq msg.device device)
          (value_accepted msg) (text_beq (trim_prefix msg.path (operation_prefix feature)) msg.path)
          h in
      (
        trim_prefix msg.path (operation_prefix feature),
        record {
          path = path_of_trim msg.path trimmed;
          device_id = (text_beq_iff msg.device device).0 device_ok;
          object = object_ok;
        },
        sym e,
      )

  -- The message handler calls an operation exactly for a message of the feature and the device, with
  -- a JSON object or no value, whose path goes on after the inbox, and the operation is the one that
  -- the path names there.
  pub route_iff :
      (msg : Envelope) (op : Operation)
      → (route feature device msg ≡ some op) ↔ ((name : Text) × Calls msg name × Names op name)
  route_iff msg op = (
    (λ h.
        let (name, c, e) = Calls-of_route msg op h in
        (name, c, subst (λ o. Names o name) (sym e) (operation_of-Names name))),
    (λ (name, c, n). route_of_Calls msg name c ∙ ap some (named_operation op name n)),
  )
