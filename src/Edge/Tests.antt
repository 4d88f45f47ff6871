-- ===== src/Edge/Tests.antt =====
-- Two devices, and each theorem on the edge connector at them.
use file_upload.Prelude.{◌≡◌, refl, Option, none, some, List, [], ◌∷◌}
use file_upload.Prelude.Text.{bytes}
use file_upload.Edge.{EdgeConfiguration, EdgeConnector, receive_all}
use file_upload.Edge.Alternation.{replay, receive_all-replay}

abbrev first_device : EdgeConfiguration
first_device = record { device_id = bytes "a"; tenant_id = bytes "t"; policy_id = [] }

abbrev second_device : EdgeConfiguration
second_device = record { device_id = bytes "b"; tenant_id = bytes "t"; policy_id = [] }

abbrev connector : EdgeConnector
connector = record { cfg = none; calls = [] }

abbrev messages : List (Option EdgeConfiguration)
messages = some first_device ∷ none ∷ some first_device ∷ some second_device ∷ []

receive_all-replay_example :
    (replay none (receive_all messages connector).calls ≡ some (receive_all messages connector).cfg)
    × ((receive_all messages connector).cfg ≡ some second_device)
unfolding replay
receive_all-replay_example = receive_all-replay messages connector refl
