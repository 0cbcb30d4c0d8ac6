-- ===== src/Resp/Chunks.antt =====
-- The reader, fed a stream in two chunks or at once.
use kagni.Prelude.{
  ℕ, zero, suc, ◌+◌, ◌≤◌, ◌≡◌, refl, sym, ap, ◌∙◌, List, [], ◌∷◌, ◌++◌, Bytes, arith, length,
  length-append,
}
use mathlib.Core.Path.{subst}
use mathlib.Core.List.{append_assoc}
use kagni.Resp.Parse.{ProtocolError, Value, Parsed, done, more, fail, parse_message}
use kagni.Resp.Reader.{Fed, messages, raised, prepend, turn, drain, feed, max_buffer}
use kagni.Resp.Extend.{Extends, parse_message-extend}
use kagni.Resp.Fuel.{
  Leaves, Leaves-mono, parse_message-IsShrinking, parse_message_takes, parse_message_fuel,
}

drain_nil : (f : ℕ) → drain f [] ≡ messages [] []
unfolding drain parse_message
drain_nil zero = refl
drain_nil (suc f) = refl

-- One turn of two loops that agree on the rest.
turn-congr :
    (p q : Bytes → Fed) (s : Bytes) (m : Parsed Value) (n : ℕ)
    → Leaves m n
    → ((t : Bytes) → length t ≤ n → p t ≡ q t)
    → turn p s m ≡ turn q s m
unfolding turn
turn-congr p q s (done v rest) n h k = ap (prepend (v ∷ [])) (k rest h)
turn-congr p q s more n h k = refl
turn-congr p q s (fail e) n h k = refl

-- Any fuel from the length of the buffer on gives the same result.
pub drain_fuel : (f g : ℕ) (s : Bytes) → length s ≤ f → length s ≤ g → drain f s ≡ drain g s
unfolding drain
drain_fuel f g [] a b = drain_nil f ∙ sym (drain_nil g)
drain_fuel zero g (c ∷ s) a b = absurd (omega arith)
drain_fuel (suc f) zero (c ∷ s) a b = absurd (omega arith)
drain_fuel (suc f) (suc g) (c ∷ s) a b =
    turn-congr (drain f) (drain g) (c ∷ s) (parse_message (suc (length s)) (c ∷ s)) (length s)
      (parse_message_takes (suc (length s)) c s)
      (λ t h. drain_fuel f g t (omega arith) (omega arith))

-- Going on with the bytes `x` after a call.
abbrev pub resume : Bytes → Fed → Fed
resume x (messages vs buffer) = prepend vs (drain (length (buffer ++ x)) (buffer ++ x))
resume x (raised e) = raised e

prepend-prepend :
    (v : Value) (vs : List Value) (r : Fed) → prepend (v ∷ vs) r ≡ prepend (v ∷ []) (prepend vs r)
prepend-prepend v vs (messages ws buffer) = refl
prepend-prepend v vs (raised e) = refl

resume-prepend :
    (x : Bytes) (v : Value) (r : Fed)
    → resume x (prepend (v ∷ []) r) ≡ prepend (v ∷ []) (resume x r)
resume-prepend x v (messages vs buffer) = prepend-prepend v vs _
resume-prepend x v (raised e) = refl

turn-resume :
    (f g : ℕ) (s x : Bytes) (m m' : Parsed Value)
    → Extends m x m'
    → (m ≡ more → turn (drain f) (s ++ x) m' ≡ resume x (messages [] s))
    → ((v : Value) (rest : Bytes) → m ≡ done v rest → drain f (rest ++ x) ≡ resume x (drain g rest))
    → turn (drain f) (s ++ x) m' ≡ resume x (turn (drain g) s m)
unfolding turn
turn-resume f g s x (done v rest) m' h stop go =
    rw h (ap (prepend (v ∷ [])) (go v rest refl) ∙ sym (resume-prepend x v (drain g rest)))
turn-resume f g s x more m' h stop go = stop refl
turn-resume f g s x (fail e) m' h stop go = rw h

prepend_nil : (r : Fed) → prepend [] r ≡ r
prepend_nil (messages vs buffer) = refl
prepend_nil (raised e) = refl

Leaves-done :
    {m : Parsed Value} {v : Value} {rest : Bytes} (n : ℕ)
    → Leaves m n
    → m ≡ done v rest
    → length rest ≤ n
Leaves-done n h e = rw e at h

drain-resume :
    (f : ℕ) (s x : Bytes) → length (s ++ x) ≤ f → drain f (s ++ x) ≡ resume x (drain (length s) s)
unfolding drain
drain-resume f [] x b =
    drain_fuel f (length x) x b (omega arith) ∙ sym (prepend_nil (drain (length x) x))
drain-resume zero (c ∷ s) x b = absurd (omega arith)
drain-resume (suc f) (c ∷ s) x b =
    let long = suc (length (s ++ x)) in
    let m = parse_message long (c ∷ s) in
    let fuel : parse_message (suc (length s)) (c ∷ s) ≡ m =
      parse_message_fuel (suc (length s)) long (c ∷ s) (omega arith)
        (omega (arith, length-append s x)) in
    turn-resume f (length s) (c ∷ s) x m (parse_message long (c ∷ s ++ x))
      (parse_message-extend long x (c ∷ s))
      (λ _.
        drain_fuel (suc f) long (c ∷ s ++ x) b (omega arith)
        ∙ sym (prepend_nil (drain long (c ∷ s ++ x))))
      (λ v rest e.
        let short : length rest ≤ length s =
          Leaves-done (length s) (parse_message_takes long c s) e in
        drain-resume f rest x (omega (arith, length-append rest x, length-append s x))
        ∙ ap (resume x) (drain_fuel (length rest) (length s) rest (omega arith) short))
    ∙ ap (λ k. resume x (turn (drain (length s)) (c ∷ s) k)) (sym fuel)

-- The buffer that a call leaves has at most `n` bytes.
abbrev Keeps : ℕ → Fed → Type 0
Keeps n (messages vs buffer) = length buffer ≤ n
Keeps n (raised e) = Unit

prepend-Keeps : (n : ℕ) (vs : List Value) (r : Fed) → Keeps n r → Keeps n (prepend vs r)
prepend-Keeps n vs (messages ws buffer) h = h
prepend-Keeps n vs (raised e) h = tt

turn-Keeps :
    (loop : Bytes → Fed) (s : Bytes) (m : Parsed Value) (n : ℕ)
    → length s ≤ n
    → Leaves m n
    → ((t : Bytes) → length t ≤ n → Keeps n (loop t))
    → Keeps n (turn loop s m)
unfolding turn
turn-Keeps loop s (done v rest) n b h k = prepend-Keeps n (v ∷ []) (loop rest) (k rest h)
turn-Keeps loop s more n b h k = b
turn-Keeps loop s (fail e) n b h k = tt

drain-Keeps : (f : ℕ) (s : Bytes) (n : ℕ) → length s ≤ n → Keeps n (drain f s)
unfolding drain
drain-Keeps zero s n b = b
drain-Keeps (suc f) s n b =
    turn-Keeps (drain f) s (parse_message (length s) s) n b
      (Leaves-mono (parse_message (length s) s) (length s) n b
        (parse_message-IsShrinking (length s) s))
      (λ t h. drain-Keeps f t n h)

-- What the calls of `feed` on one chunk and on the next, `x`, have to do with the call on the two
-- at once. The messages of a call that raises are lost, also those that were complete.
pub data IsSplit (x : Bytes) (whole : Fed) : Fed → Type 0 where
  first_raises : {e : ProtocolError} → whole ≡ raised e → IsSplit x whole (raised e)
  second_raises :
      {vs : List Value} {buffer : Bytes} {e : ProtocolError}
      → feed x buffer ≡ raised e
      → whole ≡ raised e
      → IsSplit x whole (messages vs buffer)
  both_return :
      {vs ws : List Value} {buffer rest : Bytes}
      → feed x buffer ≡ messages ws rest
      → whole ≡ messages (vs ++ ws) rest
      → IsSplit x whole (messages vs buffer)

feed_fits :
    (x buffer : Bytes)
    → length buffer + length x ≤ max_buffer
    → feed x buffer ≡ drain (length (buffer ++ x)) (buffer ++ x)
unfolding feed
feed_fits x buffer h = ground (arith, length-append buffer x)

second-IsSplit :
    (x buffer : Bytes) (vs : List Value) (next whole : Fed)
    → feed x buffer ≡ next
    → whole ≡ prepend vs next
    → IsSplit x whole (messages vs buffer)
second-IsSplit x buffer vs (messages ws rest) whole h e = both_return h e
second-IsSplit x buffer vs (raised e) whole h joined = second_raises h joined

resume-IsSplit :
    (x : Bytes) (n : ℕ) (r whole : Fed)
    → Keeps n r
    → n + length x ≤ max_buffer
    → whole ≡ resume x r
    → IsSplit x whole r
resume-IsSplit x n (messages vs buffer) whole k h e =
    second-IsSplit x buffer vs (feed x buffer) whole refl
      (e ∙ ap (prepend vs) (sym (feed_fits x buffer (omega (arith, k, h)))))
resume-IsSplit x n (raised e) whole k h joined = first_raises joined

-- Feeding `a` and then `b`, as long as what is buffered stays within the reader's limit: if neither
-- call raises, feeding `a ++ b` at once returns the messages of both in order and leaves the same
-- buffer; if one of them raises, feeding `a ++ b` at once raises the same error, and the messages
-- that the first call returned before the second raised are not returned.
pub feed-append :
    (a b buffer : Bytes)
    → length buffer + length a + length b ≤ max_buffer
    → IsSplit b (feed (a ++ b) buffer) (feed a buffer)
feed-append a b buffer h =
    let s = buffer ++ a in
    let first = drain (length s) s in
    let joined : feed (a ++ b) buffer ≡ resume b first =
      feed_fits (a ++ b) buffer (omega (arith, length-append a b, h))
      ∙ ap (λ t. drain (length t) t) (sym (append_assoc buffer a b))
      ∙ drain-resume (length (s ++ b)) s b (omega arith) in
    subst (IsSplit b (feed (a ++ b) buffer)) (sym (feed_fits a buffer (omega (arith, h)))) (
      resume-IsSplit b (length s) first (feed (a ++ b) buffer)
        (drain-Keeps (length s) s (length s) (omega arith))
        (omega (arith, length-append buffer a, h)) joined)
