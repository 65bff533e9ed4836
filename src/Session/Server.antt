-- ===== src/Session/Server.antt =====
-- The session and a server that keeps to its side of the resumption: what the server takes of the
-- numbered messages, over any number of sockets.
use sozvon.Base.{ℕ, ◌<◌, ◌≡◌, ◌⊎◌, List, [], ◌∷◌, ◌++◌, length}
use sozvon.Signalling.{Message, whole}
use sozvon.Session.State.{Session}
use sozvon.Session.Incoming.{resumed}
use sozvon.Session.Events.{Event, gets, apply, Occurs, begin}
use sozvon.Session.Phases.{carried}

-- The server reads the socket `at`; it took `before` on the sockets before and `here` on this one.
-- `answers` are the sockets on which it answered, with the numbers it gave.
pub record Server : Type 0 where
  pub at : ℕ
  pub before : List Message
  pub here : List Message
  pub answers : List (ℕ × ℕ)

abbrev pub taken : Server → List Message
taken v = v.before ++ v.here

pub record World : Type 0 where
  pub client : Session
  pub server : Server

-- The server gave the number `n` on the socket `k`.
abbrev pub Gave : ℕ → ℕ → List (ℕ × ℕ) → Type 0
Gave k n [] = ⊥
Gave k n (given ∷ more) = (k ≡ given.0) × (n ≡ given.1) ⊎ Gave k n more

-- A `sozvon-resumed` that the client gets was sent by the server, on that socket.
abbrev pub IsSent : Server → Event → Type 0
IsSent v (gets k (resumed a)) = (n : ℕ) × (a ≡ whole n) × Gave k n v.answers
IsSent v _ = Unit {0}

-- `reads` takes the next message on the server's socket; `answer` moves to a newer socket, on which
-- the client asked to resume, and tells how many messages were taken.
pub data Move (w : World) : World → Type 0 where
  acts :
      (e : Event) (now : ℕ)
      → Occurs e now w.client
      → IsSent w.server e
      → Move w (record w { client = apply e now w.client })
  reads :
      (m : Message) (rest : List Message)
      → carried w.server.at w.client ≡ w.server.here ++ m ∷ rest
      → Move w (record w { server = record w.server { here = w.server.here ++ m ∷ [] } })
  answer :
      (k : ℕ)
      → w.server.at < k
      → k < w.client.made
      → Move w (record w {
        server = record {
          at = k;
          before = taken w.server;
          here = [];
          answers = (k, length (taken w.server)) ∷ w.server.answers;
        };
      })

pub data Course (now : ℕ) : World → Type 0 where
  start : Course now (record {
    client = begin now;
    server = record { at = 0; before = []; here = []; answers = [] };
  })
  later : {w u : World} → Course now w → Move w u → Course now u
