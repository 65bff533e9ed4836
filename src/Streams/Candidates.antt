-- ===== src/Streams/Candidates.antt =====
-- No candidate of a stream is lost, given twice or out of order.
use sozvon.Base.{
  ◌≡◌, refl, ap, sym, ◌∙◌, String, Bool, true, false, List, [], ◌∷◌, ◌++◌, if◌then◌else◌, arith,
}
use mathlib.Core.List.{append_assoc, append-nil}
use sozvon.Streams.{
  Stream, make, got_local_ice, got_remote_ice, flush_local, flush_remote, described_now, answered,
  negotiated,
}

-- What happens to a stream while the connection takes messages.
pub data Event : Type 0 where
  local remote : String → Event
  describes answers negotiates : Event

unfoldable pub apply : Event → Stream → Stream
apply (local c) s = got_local_ice true c s
apply (remote c) s = got_remote_ice c s
apply describes s = described_now s
apply answers s = answered true s
apply negotiates s = negotiated true s

unfoldable pub run : List Event → Stream → Stream
run [] s = s
run (e ∷ es) s = run es (apply e s)

abbrev pub locals : List Event → List String
locals [] = []
locals (local c ∷ es) = c ∷ locals es
locals (e ∷ es) = locals es

abbrev pub remotes : List Event → List String
remotes [] = []
remotes (remote c ∷ es) = c ∷ remotes es
remotes (e ∷ es) = remotes es

abbrev waiting_after : Bool → List String → List String
waiting_after true cs = []
waiting_after false cs = cs

pub record IsOrdered (local_all remote_all : List String) (s : Stream) : Type 0 where
  pub local_order : s.told ++ s.local_ice ≡ local_all
  pub remote_order : s.added ++ s.remote_ice ≡ remote_all
  pub local_waits : (if s.local_description_sent then s.local_ice else []) ≡ []
  pub remote_waits : (if s.described then s.remote_ice else []) ≡ []

snoc :
    (xs ys all : List String) (c : String) → xs ++ ys ≡ all → xs ++ (ys ++ c ∷ []) ≡ all ++ c ∷ []
snoc xs ys all c e = sym (append_assoc xs ys (c ∷ [])) ∙ ap (λ (l : List String). l ++ c ∷ []) e

snoc_sent :
    (xs ys all : List String) (c : String)
    → xs ++ ys ≡ all
    → ys ≡ []
    → (xs ++ c ∷ []) ++ ys ≡ all ++ c ∷ []
snoc_sent xs ys all c e n = rw (← e) (rw n (simp append-nil))

got_local-IsOrdered :
    (c : String) (ls rs : List String) (s : Stream)
    → IsOrdered ls rs s
    → IsOrdered (ls ++ c ∷ []) rs (got_local_ice true c s)
unfolding got_local_ice
got_local-IsOrdered c ls rs s v = ground (
  arith,
  snoc s.told s.local_ice ls c v.local_order,
  snoc_sent s.told s.local_ice ls c v.local_order,
)

got_remote-IsOrdered :
    (c : String) (ls rs : List String) (s : Stream)
    → IsOrdered ls rs s
    → IsOrdered ls (rs ++ c ∷ []) (got_remote_ice c s)
unfolding got_remote_ice
got_remote-IsOrdered c ls rs s v = ground (
  arith,
  snoc s.added s.remote_ice rs c v.remote_order,
  snoc_sent s.added s.remote_ice rs c v.remote_order,
)

described-IsOrdered :
    (ls rs : List String) (s : Stream) → IsOrdered ls rs s → IsOrdered ls rs (described_now s)
unfolding described_now flush_remote
described-IsOrdered ls rs s v = ground (arith, append-nil (s.added ++ s.remote_ice))

answered-IsOrdered :
    (ls rs : List String) (s : Stream) → IsOrdered ls rs s → IsOrdered ls rs (answered true s)
unfolding answered flush_local
answered-IsOrdered ls rs s v = ground (arith, append-nil (s.told ++ s.local_ice))

negotiated-IsOrdered :
    (ls rs : List String) (s : Stream) → IsOrdered ls rs s → IsOrdered ls rs (negotiated true s)
unfolding negotiated flush_local
negotiated-IsOrdered ls rs s v = ground (arith, append-nil (s.told ++ s.local_ice))

run-IsOrdered :
    (es : List Event) (ls rs : List String) (s : Stream)
    → IsOrdered ls rs s
    → IsOrdered (ls ++ locals es) (rs ++ remotes es) (run es s)
unfolding run apply
run-IsOrdered [] ls rs s v = rw append-nil (rw append-nil v)
run-IsOrdered (local c ∷ es) ls rs s v =
    rw append_assoc at (run-IsOrdered es (ls ++ c ∷ []) rs _ (got_local-IsOrdered c ls rs s v))
run-IsOrdered (remote c ∷ es) ls rs s v =
    rw append_assoc at (run-IsOrdered es ls (rs ++ c ∷ []) _ (got_remote-IsOrdered c ls rs s v))
run-IsOrdered (describes ∷ es) ls rs s v = run-IsOrdered es ls rs _ (described-IsOrdered ls rs s v)
run-IsOrdered (answers ∷ es) ls rs s v = run-IsOrdered es ls rs _ (answered-IsOrdered ls rs s v)
run-IsOrdered (negotiates ∷ es) ls rs s v =
    run-IsOrdered es ls rs _ (negotiated-IsOrdered ls rs s v)

-- Whatever happens to a new stream while the connection takes messages, the candidates that were sent
-- to the server and those that still wait are, in order, all that the browser found, and none waits
-- once the local description was sent; and likewise the candidates given to the peer connection and
-- those that wait are all that the server sent, and none waits once it has a remote description.
pub candidates_in_order :
    (id local_id : String) (up : Bool) (es : List Event)
    → IsOrdered (locals es) (remotes es) (run es (make id local_id up))
candidates_in_order id local_id up es =
    run-IsOrdered es [] [] (make id local_id up)
      (record { local_order = refl; remote_order = refl; local_waits = refl; remote_waits = refl })
