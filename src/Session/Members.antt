-- ===== src/Session/Members.antt =====
-- static/protocol.js, `gotMessage`: the messages `joined` and `user`.
use sozvon.Base.{
  String, Bool, true, false, Option, none, some, List, [], if◌then◌else◌, str_eq, insert, erase,
}
use sozvon.Session.State.{
  Session, User, JoinKind, join, change, leave, fail, rejoin, UserKind, add, changed, delete,
  knocking, knock_cancel, knock_refused, unknown, on_user, on_joined, on_knock, on_knock_refused,
  rejoins, transfers_fail, call, truthy,
}
use sozvon.Session.Sockets.{users_gone}

-- `permissions` is `m.permissions || []`.
pub record Joined : Type 0 where
  pub kind : JoinKind
  pub group : Option String
  pub username : Option String
  pub permissions : List String
  pub rtc_configuration : Option String

abbrev pub same_text : Option String → Option String → Bool
same_text none none = true
same_text (some a) (some b) = str_eq a b
same_text _ _ = false

unfoldable pub enter : Joined → Session → Session
enter m s = record s {
  member = record s.member {
    group = m.group;
    username = m.username;
    permissions = m.permissions;
    rtc_configuration = m.rtc_configuration;
  };
}

unfoldable pub depart : Session → Session
unfolding users_gone
depart s = record s {
  member = record s.member {
    users = [];
    username = none;
    permissions = [];
    rtc_configuration = none;
  };
  calls = users_gone s.member.users s.calls;
}

unfoldable pub joined_as : JoinKind → Joined → Session → Session
unfolding enter depart
joined_as leave m s = call (on_joined leave m.group) (depart s)
joined_as fail m s = call (on_joined fail m.group) (depart s)
-- The source throws if there is a group.
joined_as join m s = if truthy s.member.group then s else call (on_joined join m.group) (enter m s)
joined_as change m s =
    if same_text m.group s.member.group then call (on_joined change m.group) (enter m s) else s
joined_as rejoin m s = call (on_joined rejoin m.group) (call rejoins s)
joined_as kind m s = call (on_joined kind m.group) s

unfoldable pub joined : Joined → Session → Session
joined m s = joined_as m.kind m s

-- `permissions` and `details` are with their defaults.
pub record UserMessage : Type 0 where
  pub kind : UserKind
  pub id : String
  pub user : User

unfoldable pub set_user : String → User → Session → Session
set_user id u s = record s { member = record s.member { users = insert id u s.member.users } }

unfoldable pub user_as : UserKind → String → User → Session → Session
unfolding set_user
user_as add id u s = call (on_user id add) (set_user id u s)
user_as changed id u s = call (on_user id changed) (set_user id u s)
user_as delete id u s =
    let s' = call (transfers_fail id) s in
    call (on_user id delete)
      (record s' { member = record s.member { users = erase id s.member.users } })
user_as knocking id u s = call (on_knock id true) s
user_as knock_cancel id u s = call (on_knock id false) s
user_as knock_refused id u s = call (on_knock_refused id) s
user_as unknown id u s = s

unfoldable pub user_message : UserMessage → Session → Session
user_message m s = user_as m.kind m.id m.user s
