-- ===== src/Dispatch/State.antt =====
-- commands/__init__.py: `Session`, and the state that a request runs against.
use kagni.Prelude.{ℕ, Bool, false, not, ◌&&◌, Option, List, [], ◌∷◌, Bytes, bytes_eq, is_empty}
use kagni.Dict.{Dict, insert}
use kagni.Data
use kagni.Data.{Clock, Data}
use kagni.Resp.{Error, Reply, Value}

-- A parsed request: the bytes of the command, and the arguments.
abbrev pub Request : Type 0
Request = Bytes × List Value

pub record Session : Type 0 where
  pub in_multi : Bool
  pub queue : List Request
  pub channels : List Bytes
  pub patterns : List Bytes
  pub outbox : List Bytes
  pub watched : Dict Bytes (ℕ × Bool)

abbrev pub new_session : Session
new_session = record {
  in_multi = false;
  queue = [];
  channels = [];
  patterns = [];
  outbox = [];
  watched = [];
}

abbrev pub subscribed : Session → Bool
subscribed s = not (is_empty s.channels && is_empty s.patterns)

-- The store, the publish/subscribe hub, and the session of the connection that is served.
pub record World (V Hub : Type 0) : Type 0 where
  pub store : Data V
  pub hub : Hub
  pub session : Session

-- How a handler ends: with a value, with none because its frames were pushed, with an `Error`, or
-- with another exception.
pub data Ran : Type 0 where
  replied : Reply → Ran
  unanswered failed : Ran
  raised : Error → Ran

pub record Handler (V Hub : Type 0) : Type 0 where
  pub min_args : ℕ
  pub max_args : Option ℕ
  pub run : List Value → Clock → World V Hub → Ran × World V Hub

module _ {V Hub : Type 0} where
  abbrev pub with_session : (Session → Session) → World V Hub → World V Hub
  with_session f w = record w { session = f w.session }

  -- WATCH
  unfoldable pub watch : List Bytes → Clock → World V Hub → World V Hub
  unfolding Data.generation Data.is_live insert
  watch [] c w = w
  watch (key ∷ keys) c w = watch keys c (
      with_session
        (λ s. record s {
          watched = insert key (Data.generation key w.store, Data.is_live key c w.store) s.watched;
        })
        w)

  -- UNWATCH
  abbrev pub unwatch : World V Hub → World V Hub
  unwatch = with_session λ s. record s { watched = [] }
