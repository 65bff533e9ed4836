-- ===== src/Bitrate/Caps/Tests.antt =====
-- The registry of caps at concrete inputs.
use sozvon.Base.{◌≡◌, refl, none, some, lookup, insert, erase}
use sozvon.Bitrate.{Value, amount, sanitize_cap}
use sozvon.Bitrate.Caps.{
  Caps, empty, get, set, request, put, prune, least, expired, or_empty, forget, has,
}
use sozvon.Bitrate.Caps.Tightest.{IsTightest, get-IsTightest}

machine : Unit {0}
unfolding get set request put prune least expired or_empty forget has sanitize_cap lookup insert
    erase
machine = tt

-- 500 and 200 kbit/s, in thousandths.
abbrev loose : Value
loose = amount 500000000

abbrev tight : Value
tight = amount 200000000

abbrev two : Caps
two = (set "cam" "bob" tight 1000 (set "cam" "ann" loose 0 empty).0).0

get_cam_two : (get "cam" 15000 two).1 ≡ some 200000
unfolding machine
get_cam_two = refl

get_after : (get "cam" 36001 two).1 ≡ none
unfolding machine
get_after = refl

get-IsTightest_example : IsTightest 1000 (or_empty (lookup "cam" two)) (get "cam" 1000 two).1
get-IsTightest_example = get-IsTightest "cam" 1000 two

sanitize_tight : sanitize_cap tight ≡ some 200000
unfolding machine
sanitize_tight = refl
