-- ===== src/PubSub/Publish.antt =====
-- pubsub.py: `publish` counts what it delivers.
use kagni.Prelude.{
  ℕ, ◌+◌, Bool, List, [], ◌∷◌, ◌++◌, Bytes, if◌then◌else◌, length, ◌≡◌, ◌∙◌, ap, arith, append-nil,
  length-append, sym, Bool-cases, inl, inr,
}
use mathlib.Core.List.{append_assoc}
use kagni.PubSub.Hub.{
  Subscribers, PubSubHub, subscribers_of, build_message, build_pmessage, deliver_all,
  deliver_patterns, publish,
}

abbrev pub to_each : Bytes → List ℕ → List (ℕ × Bytes)
to_each frame [] = []
to_each frame (s ∷ ss) = (s, frame) ∷ to_each frame ss

same_state :
    (n m : ℕ) (hub : PubSubHub) (xs ys : List (ℕ × Bytes))
    → n ≡ m
    → xs ≡ ys
    → ◌≡◌ {A = ℕ × PubSubHub} (n, record hub { delivered = xs }) (m, record hub { delivered = ys })
same_state n m hub xs ys p q =
    ap (λ t. (t, record hub { delivered = xs })) p ∙ ap (λ t. (m, record hub { delivered = t })) q

abbrev pub sends : List (ℕ × Bytes) → ℕ × PubSubHub → ℕ × PubSubHub
sends new (n, hub) = (n + length new, record hub { delivered = hub.delivered ++ new })

deliver_all-sends :
    (frame : Bytes) (ss : List ℕ) (n : ℕ) (hub : PubSubHub)
    → deliver_all frame ss (n, hub) ≡ sends (to_each frame ss) (n, hub)
unfolding deliver_all
deliver_all-sends frame [] n hub =
    same_state n (n + 0) hub hub.delivered (hub.delivered ++ []) (omega arith)
      (sym (append-nil hub.delivered))
deliver_all-sends frame (s ∷ ss) n hub =
    deliver_all-sends frame ss (n + 1) (record hub { delivered = hub.delivered ++ (s, frame) ∷ [] })
    ∙ same_state (n + 1 + length (to_each frame ss)) (n + length ((s, frame) ∷ to_each frame ss))
        hub (hub.delivered ++ (s, frame) ∷ [] ++ to_each frame ss)
        (hub.delivered ++ (s, frame) ∷ to_each frame ss) (omega arith)
        (append_assoc hub.delivered ((s, frame) ∷ []) (to_each frame ss))

sends-append :
    (xs ys : List (ℕ × Bytes)) (n : ℕ) (hub : PubSubHub)
    → sends ys (sends xs (n, hub)) ≡ sends (xs ++ ys) (n, hub)
sends-append xs ys n hub =
    same_state (n + length xs + length ys) (n + length (xs ++ ys)) hub (hub.delivered ++ xs ++ ys)
      (hub.delivered ++ (xs ++ ys)) (omega (arith, length-append xs ys))
      (append_assoc hub.delivered xs ys)

module _ (matches : Bytes → Bytes → Bool) where
  -- the deliveries for the patterns that match
  abbrev pub matched : Bytes → Bytes → Subscribers → List (ℕ × Bytes)
  unfolding build_pmessage
  matched channel payload [] = []
  matched channel payload ((pattern, subscribers) ∷ table) =
      let rest = matched channel payload table in
      (if matches pattern channel
        then to_each (build_pmessage pattern channel payload) subscribers ++ rest
        else rest)

  deliver_patterns-sends :
      (channel payload : Bytes) (table : Subscribers) (n : ℕ) (hub : PubSubHub)
      → deliver_patterns matches channel payload table (n, hub)
        ≡ sends (matched channel payload table) (n, hub)
  unfolding deliver_patterns
  deliver_patterns-sends channel payload [] n hub = deliver_all-sends [] [] n hub
  deliver_patterns-sends channel payload ((pattern, subscribers) ∷ table) n hub =
      elim (Bool-cases (matches pattern channel)) [
        | inl hit ↦
            rw (hit, deliver_all-sends (build_pmessage pattern channel payload) subscribers n hub)
              (deliver_patterns-sends channel payload table
                  (n + length (to_each (build_pmessage pattern channel payload) subscribers))
                  (record hub {
                    delivered =
                        hub.delivered
                        ++ to_each (build_pmessage pattern channel payload) subscribers;
                  })
                ∙ sends-append (to_each (build_pmessage pattern channel payload) subscribers)
                    (matched channel payload table) n hub)
        | inr miss ↦ rw miss (deliver_patterns-sends channel payload table n hub)
      ]

  -- PUBLISH delivers the message to each subscriber of the channel, and to each subscriber of each
  -- pattern that matches it, in this order and to nobody else, changes nothing else in the hub, and
  -- reports the number of frames that it has delivered.
  pub publish-sends :
      (channel payload : Bytes) (hub : PubSubHub)
      → publish matches channel payload hub
        ≡ sends
            (to_each (build_message channel payload) (subscribers_of channel hub.channels)
              ++ matched channel payload hub.patterns)
            (0, hub)
  unfolding publish
  publish-sends channel payload hub =
      let direct = to_each (build_message channel payload) (subscribers_of channel hub.channels) in
      rw
        (deliver_all-sends (build_message channel payload) (subscribers_of channel hub.channels) 0
          hub)
        (deliver_patterns-sends channel payload hub.patterns (0 + length direct)
            (record hub { delivered = hub.delivered ++ direct })
          ∙ sends-append direct (matched channel payload hub.patterns) 0 hub)
