-- ===== src/Edge/Alternation.antt =====
-- client/edge.go: the order of the calls that the edge client gets.
use file_upload.Prelude.{
  sym, Option-cases, ◌≡◌, refl, ap, ◌∙◌, true, Bool-cases, Option, none, some, List, [], ◌∷◌, ◌++◌,
  arith, inl, inr,
}
use file_upload.Prelude.Text.{text_beq_iff}
use file_upload.Edge.{
  EdgeConfiguration, EdgeConnector, Call, connect, disconnect, same_configuration, is_current,
  disconnect_old, receive, receive_all, close,
}

-- The connection after some calls: none if a call meets a connection in the wrong state.
unfoldable pub replay : Option EdgeConfiguration → List Call → Option (Option EdgeConfiguration)
replay c [] = some c
replay none (connect c ∷ calls) = replay (some c) calls
replay (some c) (disconnect ∷ calls) = replay none calls
replay _ _ = none

replay-append :
    (c d : Option EdgeConfiguration) (calls later : List Call)
    → replay c calls ≡ some d
    → replay c (calls ++ later) ≡ replay d later
unfolding replay
replay-append c d [] later h = let e : c ≡ d = cc h in ap (λ x. replay x later) e
replay-append none d (connect c ∷ calls) later h = replay-append (some c) d calls later h
replay-append none d (disconnect ∷ calls) later h = cc h
replay-append (some c) d (connect _ ∷ calls) later h = cc h
replay-append (some c) d (disconnect ∷ calls) later h = replay-append none d calls later h

-- The configuration after a message.
abbrev pub latest :
    Option EdgeConfiguration → List (Option EdgeConfiguration) → Option EdgeConfiguration
latest c [] = c
latest c (none ∷ ms) = latest c ms
latest c (some d ∷ ms) = latest (some d) ms

same_configuration-≡ : (a b : EdgeConfiguration) → same_configuration a b ≡ true → a ≡ b
unfolding same_configuration
same_configuration-≡ a b h = ground (
  arith,
  text_beq_iff a.device_id b.device_id,
  text_beq_iff a.tenant_id b.tenant_id,
  text_beq_iff a.policy_id b.policy_id,
)

receive-replay :
    (m : Option EdgeConfiguration) (p : EdgeConnector)
    → replay none p.calls ≡ some p.cfg
    → (replay none (receive m p).calls ≡ some (receive m p).cfg)
      × ((receive m p).cfg ≡ latest p.cfg (m ∷ []))
unfolding receive is_current disconnect_old replay
receive-replay none p h = (h, refl)
receive-replay (some c) p h = elim (Option-cases p.cfg) [
  | inl e ↦
      rw (e, is_current, disconnect_old)
        (replay-append none none p.calls (connect c ∷ []) (h ∙ ap some e), refl)
  | inr (old, e) ↦ elim (Bool-cases (same_configuration c old)) [
    | inl same ↦
        rw (e, is_current, same) (h ∙ ap some e, ap some (sym (same_configuration-≡ c old same)))
    | inr other ↦
        rw (e, is_current, other, disconnect_old)
          (
            replay-append none (some old) p.calls (disconnect ∷ connect c ∷ []) (h ∙ ap some e),
            refl,
          )
  ]
]

latest-cons :
    (m : Option EdgeConfiguration) (c : Option EdgeConfiguration)
    (ms : List (Option EdgeConfiguration))
    → latest (latest c (m ∷ [])) ms ≡ latest c (m ∷ ms)
latest-cons none c ms = refl
latest-cons (some d) c ms = refl

-- After any messages, connections and disconnections have taken turns, if they did so before, and
-- what is connected is the configuration of the last message that holds one.
pub receive_all-replay :
    (ms : List (Option EdgeConfiguration)) (p : EdgeConnector)
    → replay none p.calls ≡ some p.cfg
    → (replay none (receive_all ms p).calls ≡ some (receive_all ms p).cfg)
      × ((receive_all ms p).cfg ≡ latest p.cfg ms)
unfolding receive_all
receive_all-replay [] p h = (h, refl)
receive_all-replay (m ∷ ms) p h =
    let first = receive-replay m p h in
    let rest = receive_all-replay ms (receive m p) first.0 in
    (rest.0, rest.1 ∙ ap (λ c. latest c ms) first.1 ∙ latest-cons m p.cfg ms)

-- After any messages `Close` leaves nothing connected, and connections and disconnections have taken
-- turns, if they did so before.
pub close-replay :
    (ms : List (Option EdgeConfiguration)) (p : EdgeConnector)
    → replay none p.calls ≡ some p.cfg
    → replay none (close (receive_all ms p)).calls ≡ some none
unfolding close disconnect_old replay
close-replay ms p h = closed (receive_all ms p) (receive_all-replay ms p h).0
  where
    closed :
        (q : EdgeConnector)
        → replay none q.calls ≡ some q.cfg
        → replay none (q.calls ++ disconnect_old q.cfg) ≡ some none
    closed q r = elim (Option-cases q.cfg) [
      | inl e ↦ rw (e, disconnect_old) (replay-append none none q.calls [] (r ∙ ap some e))
      | inr (c, e) ↦
          rw (e, disconnect_old)
            (replay-append none (some c) q.calls (disconnect ∷ []) (r ∙ ap some e))
    ]
