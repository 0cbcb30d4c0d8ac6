-- ===== src/PubSub/Hub.antt =====
-- pubsub.py: `PubSubHub`. Sessions are numbers; the hub's log of deliveries is what `deliver` of
-- each session gets. A glob that is compiled once and cached is a test of the channel's name.
use kagni.Prelude.{
  ℕ, ◌+◌, Bool, true, Option, none, some, List, [], ◌∷◌, ◌++◌, Bytes, ◌==◌, bytes_eq, nat_eq,
  if◌then◌else◌, elem, is_empty, length,
}
use kagni.Dict.{Dict, lookup, insert, erase, keys}
use kagni.Text.{codes}
use kagni.Resp.{Reply, Replies, protocol_builder}

-- name -> the sessions that subscribe to it
abbrev pub Subscribers : Type 0
Subscribers = Dict Bytes (List ℕ)

-- `set.add` and `set.discard`
unfoldable pub add : ℕ → List ℕ → List ℕ
unfolding elem
add session subscribers =
    if elem session subscribers then subscribers else subscribers ++ session ∷ []

unfoldable pub discard : ℕ → List ℕ → List ℕ
discard session [] = []
discard session (x ∷ xs) = let rest = discard session xs in if x == session then rest else x ∷ rest

abbrev pub subscribers_of : Bytes → Subscribers → List ℕ
unfolding lookup
subscribers_of name table = elim (lookup name table) [ none ↦ [] | some l ↦ l ]

-- the body of `subscribe` and `psubscribe`
unfoldable pub subscribe_in : ℕ → Bytes → Subscribers → Subscribers
unfolding lookup insert add
subscribe_in session name table =
    insert name (add session (elim (lookup name table) [ none ↦ [] | some l ↦ l ])) table

-- the body of `unsubscribe` and `punsubscribe`
unfoldable pub unsubscribe_in : ℕ → Bytes → Subscribers → Subscribers
unfolding lookup insert erase discard
unsubscribe_in session name table = elim (lookup name table) [
  | none ↦ table
  | some subscribers ↦
      let rest = discard session subscribers in
      if is_empty rest then erase name table else insert name rest table
]

-- the inner loop of `remove_session`
unfoldable pub remove_from : ℕ → Subscribers → Subscribers
unfolding discard
remove_from session [] = []
remove_from session ((name, subscribers) ∷ table) =
    let others = remove_from session table in
    let rest = discard session subscribers in
    if is_empty rest then others else (name, rest) ∷ others

pub record PubSubHub : Type 0 where
  pub channels : Subscribers
  pub patterns : Subscribers
  pub delivered : List (ℕ × Bytes)

abbrev pub new_hub : PubSubHub
new_hub = record { channels = []; patterns = []; delivered = [] }

unfoldable pub subscribe : ℕ → Bytes → PubSubHub → PubSubHub
unfolding subscribe_in
subscribe session channel hub = record hub { channels = subscribe_in session channel hub.channels }

unfoldable pub unsubscribe : ℕ → Bytes → PubSubHub → PubSubHub
unfolding unsubscribe_in
unsubscribe session channel hub = record hub {
  channels = unsubscribe_in session channel hub.channels;
}

unfoldable pub psubscribe : ℕ → Bytes → PubSubHub → PubSubHub
unfolding subscribe_in
psubscribe session pattern hub = record hub { patterns = subscribe_in session pattern hub.patterns }

unfoldable pub punsubscribe : ℕ → Bytes → PubSubHub → PubSubHub
unfolding unsubscribe_in
punsubscribe session pattern hub = record hub {
  patterns = unsubscribe_in session pattern hub.patterns;
}

unfoldable pub remove_session : ℕ → PubSubHub → PubSubHub
unfolding remove_from
remove_session session hub = record hub {
  channels = remove_from session hub.channels;
  patterns = remove_from session hub.patterns;
}

abbrev pub bulk_list : List Bytes → Replies
bulk_list [] = Replies.empty
bulk_list (b ∷ bs) = Replies.item (Reply.bulk b) (bulk_list bs)

unfoldable pub build_message : Bytes → Bytes → Bytes
unfolding protocol_builder
build_message channel payload =
    protocol_builder (Reply.arr (bulk_list (codes "message" ∷ channel ∷ payload ∷ [])))

unfoldable pub build_pmessage : Bytes → Bytes → Bytes → Bytes
unfolding protocol_builder
build_pmessage pattern channel payload =
    protocol_builder (Reply.arr (bulk_list (codes "pmessage" ∷ pattern ∷ channel ∷ payload ∷ [])))

-- `for session in subscribers: session.deliver(frame); receivers += 1`
unfoldable pub deliver_all : Bytes → List ℕ → ℕ × PubSubHub → ℕ × PubSubHub
deliver_all frame [] state = state
deliver_all frame (session ∷ rest) (receivers, hub) =
    deliver_all frame rest
      (receivers + 1, record hub { delivered = hub.delivered ++ (session, frame) ∷ [] })

module _ (matches : Bytes → Bytes → Bool) where
  -- the loop of `publish` over the patterns
  unfoldable pub deliver_patterns : Bytes → Bytes → Subscribers → ℕ × PubSubHub → ℕ × PubSubHub
  unfolding deliver_all build_pmessage
  deliver_patterns channel payload [] state = state
  deliver_patterns channel payload ((pattern, subscribers) ∷ table) state =
      deliver_patterns channel payload table (
        if matches pattern channel
        then deliver_all (build_pmessage pattern channel payload) subscribers state
        else state)

  unfoldable pub publish : Bytes → Bytes → PubSubHub → ℕ × PubSubHub
  unfolding deliver_all deliver_patterns build_message
  publish channel payload hub =
      deliver_patterns channel payload hub.patterns
        (deliver_all (build_message channel payload) (subscribers_of channel hub.channels) (0, hub))

  -- `active_channels`, with a pattern or without
  unfoldable pub active_names : Option Bytes → List Bytes → List Bytes
  active_names pattern [] = []
  active_names pattern (name ∷ rest) =
      let more = active_names pattern rest in
      if (elim pattern [ none ↦ true | some p ↦ matches p name ]) then name ∷ more else more

  unfoldable pub active_channels : Option Bytes → PubSubHub → List Bytes
  unfolding active_names keys
  active_channels pattern hub = active_names pattern (keys hub.channels)

abbrev pub numsub : Bytes → PubSubHub → ℕ
unfolding lookup
numsub channel hub = length (subscribers_of channel hub.channels)

abbrev pub numpatterns : PubSubHub → ℕ
numpatterns hub = length hub.patterns
