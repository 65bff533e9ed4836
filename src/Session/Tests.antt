-- ===== src/Session/Tests.antt =====
-- A session that is opened, used, loses its socket and is resumed.
use sozvon.Base.{
  inl, ℕ, ◌+◌, ◌≡◌, ◌≢◌, refl, true, Option, some, List, [], ◌∷◌, ◌++◌, if◌then◌else◌, arith, ltb,
}
use sozvon.Signalling.{
  Message, SentLog, counted, push, trim, too_much, after, give_up_after, stall_after, whole,
}
use sozvon.Signalling
use sozvon.Session.State.{Session, Outgoing, hello, resuming_with, Resuming, Timer, attempt, spent}
use sozvon.Session.Sending.{
  close_socket, close, fail_with, transmit, frame_of, send, send_plain, send_logged,
}
use sozvon.Session.Sockets.{
  gone, stop_resuming, farewell, users_gone, try_again, give_up, resume_session, retry, on_timer,
  on_tick, on_open, hello_of, close_event, on_socket_close, on_socket_error, check_silence, connect,
}
use sozvon.Session.Members
use sozvon.Session.Incoming.{
  handshake, session, resumed, type_of, type_of_other, got_handshake, replay, cannot_resume,
  got_resumed, dispatch, note, got_message, on_message,
}
use sozvon.Session.Events.{
  Event, sends, leaves, fires, ticks, opens, falters, fails, ends, gets, apply, begin, Step, step,
  Reach,
}
use sozvon.Session.Events
use sozvon.Session.Phases.{closings, carried}
use sozvon.Session.Lifetime.{Inert, closes_once, closed-Inert, resuming_goes_on}
use sozvon.Session.Leaving.{left_session_resumes, on_socket_close-closed, ends_session}
use sozvon.Session.Server.{Server, World, taken, Move, acts, reads, answer, Course}
use sozvon.Session.Server
use sozvon.Session.Delivery.{delivers_in_order, delivers_all}

machine : Unit {0}
unfolding close_socket close fail_with transmit frame_of send send_plain send_logged gone
    stop_resuming farewell users_gone try_again give_up resume_session retry on_timer on_tick
    on_open hello_of close_event on_socket_close on_socket_error check_silence connect got_handshake
    replay cannot_resume got_resumed dispatch note got_message on_message apply begin push trim
    too_much after counted Signalling.on_close Signalling.on_tick type_of type_of_other carried
    Members.joined Members.joined_as Members.user_message Members.user_as
machine = tt

abbrev hi : Outgoing
hi = record { type = "chat"; text = 1 ∷ 2 ∷ [] }

abbrev opened_at : Session
opened_at = apply (opens 0) 1 (begin 0)

abbrev greeted_at : Session
greeted_at = apply (gets 0 (handshake (some ("2" ∷ [])))) 2 opened_at

abbrev named : Session
named = apply (gets 0 (session (some "secret"))) 3 greeted_at

abbrev spoken : Session
spoken = apply (sends hi) 4 named

abbrev lost : Session
lost = apply (ends 0 1006) 5 spoken

opened-Reach : Reach 0 opened_at
unfolding machine
opened-Reach = Events.later Events.start (step (opens 0) 1 refl)

named-Reach : Reach 0 named
unfolding machine
named-Reach =
    Events.later (Events.later opened-Reach (step (gets 0 (handshake (some ("2" ∷ [])))) 2 refl))
      (step (gets 0 (session (some "secret"))) 3 refl)

lost-Reach : Reach 0 lost
unfolding machine
lost-Reach =
    Events.later (Events.later named-Reach (step (sends hi) 4 tt)) (step (ends 0 1006) 5 (λ x. cc))

abbrev first_attempt : Resuming
first_attempt = record { since = 5; timer = some (record { kind = attempt 1; due = 8005 }) }

lost_lem : lost.resuming ≡ some first_attempt
unfolding machine
lost_lem = refl

closes_once_example : closings lost.calls ≡ (if lost.closed then 1 else 0)
closes_once_example = closes_once 0 lost lost-Reach

abbrev refused : Session
refused = apply (ends 1 4001) 6 lost

refused-Reach : Reach 0 refused
unfolding machine
refused-Reach = Events.later lost-Reach (step (ends 1 4001) 6 (λ x. cc))

closed-Inert_example : Inert refused (apply (sends hi) 7 refused)
closed-Inert_example =
    closed-Inert 0 refused (apply (sends hi) 7 refused) refused-Reach (unfold machine in refl)
      (step (sends hi) 7 tt)

resuming_goes_on_example :
    ((t : Timer) × (◌≡◌ {A = Option Timer} first_attempt.timer (some t)) × (t.kind ≢ spent))
    × ((on_timer 8005 lost).closed ≡ ltb (5 + give_up_after) 8005)
    × ((on_timer 8005 lost).made
        ≡ (if ltb (5 + give_up_after) 8005 then lost.made else lost.made + 1))
    × ((on_timer 8005 lost).socket
        ≡ (if ltb (5 + give_up_after) 8005 then lost.socket else some lost.made))
resuming_goes_on_example = resuming_goes_on 0 lost first_attempt 8005 lost-Reach lost_lem

left_session_resumes_example :
    ((on_timer 8005 (close lost)).leaving ≡ true)
    × ((on_timer 8005 (close lost)).socket ≡ some lost.made)
    × ((on_open lost.made (on_timer 8005 (close lost))).wire
        ≡ (lost.made, hello (resuming_with lost.resume_secret lost.received)) ∷ lost.wire)
left_session_resumes_example =
    left_session_resumes 0 8005 lost first_attempt lost-Reach lost_lem (omega arith)

on_socket_close-closed_example : (on_socket_close 1 4001 6 lost).closed ≡ ends_session 4001 lost
on_socket_close-closed_example =
    on_socket_close-closed 0 1 4001 6 lost lost-Reach (unfold machine in refl)
      (unfold machine in refl)

-- The message was taken on the first socket; another is kept while there is none.
abbrev served : Server
served = record { at = 0; before = []; here = []; answers = [] }

abbrev world : Session → Server → World
world s v = record { client = s; server = v }

abbrev took : Server
took = record served { here = (1 ∷ 2 ∷ []) ∷ [] }

abbrev bye : Outgoing
bye = record { type = "chat"; text = 3 ∷ [] }

abbrev kept : Session
kept = apply (sends bye) 6 lost

abbrev answered : Server
answered = record { at = 1; before = (1 ∷ 2 ∷ []) ∷ []; here = []; answers = (1, 1) ∷ [] }

abbrev reopened : Session
reopened = apply (opens 1) 7 kept

abbrev caught_up : Session
caught_up =
    apply (gets 1 (resumed (whole 1))) 8 (apply (gets 1 (handshake (some ("2" ∷ [])))) 8 reopened)

spoken-Course : Course 0 (world spoken took)
unfolding machine
spoken-Course =
    Server.later
      (Server.later
        (Server.later
          (Server.later (Server.later Server.start (acts (opens 0) 1 refl tt))
            (acts (gets 0 (handshake (some ("2" ∷ [])))) 2 refl tt))
          (acts (gets 0 (session (some "secret"))) 3 refl tt))
        (acts (sends hi) 4 tt tt))
      (reads (1 ∷ 2 ∷ []) [] refl)

caught_up-Course : Course 0 (world caught_up answered)
unfolding machine
caught_up-Course =
    Server.later
      (Server.later
        (Server.later
          (Server.later
            (Server.later (Server.later spoken-Course (acts (ends 0 1006) 5 (λ x. cc) tt))
              (acts (sends bye) 6 tt tt))
            (acts (opens 1) 7 refl tt))
          (answer 1 (omega arith) (omega arith)))
        (acts (gets 1 (handshake (some ("2" ∷ [])))) 8 refl tt))
      (acts (gets 1 (resumed (whole 1))) 8 refl (1, refl, inl (refl, refl)))

delivers_in_order_example : (rest : List Message) × (caught_up.accepted ≡ taken answered ++ rest)
delivers_in_order_example = delivers_in_order 0 (world caught_up answered) caught_up-Course

delivers_all_example :
    (◌≡◌ {A = ℕ} answered.at 1) × (caught_up.accepted ≡ answered.before ++ carried 1 caught_up)
delivers_all_example =
    delivers_all 0 (world caught_up answered) 1 caught_up-Course (unfold machine in refl)
      (unfold machine in refl) (unfold machine in refl) (unfold machine in refl)

-- What is sent again is the message that was kept.
sent_again : carried 1 caught_up ≡ (3 ∷ []) ∷ []
unfolding machine
sent_again = refl
