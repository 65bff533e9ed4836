-- ===== src/Bitrate/Caps/Honoured.antt =====
-- A request counts from when it is made until it expires.
use sozvon.Base.{
  ℕ, ◌+◌, ◌≤◌, ◌≡◌, refl, String, true, false, Option, none, some, [], ◌∷◌, eq_refl, lookup, insert,
  lookup-insert, arith,
}
use sozvon.Bitrate.{Value, sanitize_cap, ttl}
use sozvon.Bitrate.Caps.{Entry, Requests, Caps, expired, prune, put, get, request, set, or_empty}
use sozvon.Bitrate.Caps.Tightest.{IsBelow, AreExpired, IsTightest, least-IsTightest}

IsBelow-lookup :
    (now b : ℕ) (m : Requests) (from : String) (e : Entry)
    → IsBelow now b m
    → lookup from m ≡ some e
    → expired now e ≡ false
    → b ≤ e.cap
unfolding lookup
IsBelow-lookup now b [] from e h l x = cc
IsBelow-lookup now b ((j, d) ∷ m) from e h l x = ground (arith, IsBelow-lookup now b m from e h.1)

AreExpired-lookup :
    (now : ℕ) (m : Requests) (from : String) (e : Entry)
    → AreExpired now m
    → lookup from m ≡ some e
    → expired now e ≡ true
unfolding lookup
AreExpired-lookup now [] from e h l = cc
AreExpired-lookup now ((j, d) ∷ m) from e h l = ground (arith, AreExpired-lookup now m from e h.1)

IsTightest-lookup :
    (now : ℕ) (m : Requests) (r : Option ℕ) (from : String) (e : Entry)
    → IsTightest now m r
    → lookup from m ≡ some e
    → expired now e ≡ false
    → (b : ℕ) × (r ≡ some b) × (b ≤ e.cap)
IsTightest-lookup now m none from e h l x =
    absurd (ground (arith, AreExpired-lookup now m from e h l))
IsTightest-lookup now m (some b) from e h l x = (b, refl, IsBelow-lookup now b m from e h.0 l x)

get-asked :
    (stream from : String) (later : ℕ) (c : Caps) (m : Requests) (e : Entry)
    → lookup stream c ≡ some m
    → lookup from m ≡ some e
    → expired later e ≡ false
    → (b : ℕ) × ((get stream later c).1 ≡ some b) × (b ≤ e.cap)
unfolding get
get-asked stream from later c m e s l x =
    rw (s, get) (IsTightest-lookup later m _ from e (least-IsTightest later m) l x)

lookup-prune :
    (now : ℕ) (m : Requests) (from : String) (e : Entry)
    → lookup from m ≡ some e
    → expired now e ≡ false
    → lookup from (prune now m) ≡ some e
unfolding lookup prune
lookup-prune now [] from e l x = cc
lookup-prune now ((j, d) ∷ m) from e l x = ground (arith, lookup-prune now m from e)

lookup-put :
    (stream from : String) (m : Requests) (e : Entry) (c : Caps)
    → lookup from m ≡ some e
    → lookup stream (put stream m c) ≡ some m
unfolding put
lookup-put stream from [] e c l = unfold lookup in cc
lookup-put stream from (x ∷ m) e c l = rw (lookup-insert, eq_refl)

get-keeps :
    (stream from : String) (now : ℕ) (c : Caps) (m : Requests) (e : Entry)
    → lookup stream c ≡ some m
    → lookup from m ≡ some e
    → expired now e ≡ false
    → lookup stream (get stream now c).0 ≡ some (prune now m)
unfolding get
get-keeps stream from now c m e s l x =
    rw (s, get) (lookup-put stream from (prune now m) e c (lookup-prune now m from e l x))

-- What a receiver asked for is kept to for as long as it counts: until `ttl` after a request for a
-- valid cap the answer of `get` is no more than it, whatever was asked for before.
pub get-set :
    (stream from : String) (v : Value) (now later cap : ℕ) (c : Caps)
    → sanitize_cap v ≡ some cap
    → later ≤ now + ttl
    → (b : ℕ) × ((get stream later (set stream from v now c).0).1 ≡ some b) × (b ≤ cap)
unfolding set request
get-set stream from v now later cap c q h =
    let before = (get stream now c).0 in
    let e : Entry = record { cap = cap; since = now } in
    let m : Requests = insert from e (or_empty (lookup stream before)) in
    let l : lookup from m ≡ some e = rw (lookup-insert, eq_refl) in
    let s : lookup stream (insert stream m before) ≡ some m = rw (lookup-insert, eq_refl) in
    let x : expired now e ≡ false = unfold expired in ground arith in
    rw q (
      get-asked stream from later (get stream now (insert stream m before)).0 (prune now m) e
        (get-keeps stream from now _ m e s l x) (lookup-prune now m from e l x)
        (unfold expired in ground arith))
