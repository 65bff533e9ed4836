-- ===== src/GuestName/Labels.antt =====
-- The label outside the ciphertext and the mark inside must agree.
use sozvon.Base.{◌≡◌, ◌≢◌, String, Option, arith, eq_iff}
use sozvon.GuestName.{Text, name, discard, classify, named}

-- A message that counts as a name under one label is dropped under every other label.
pub classify-relabelled :
    (kind other : String) (text : Option Text) (n : Text)
    → classify kind text ≡ name n
    → other ≢ kind
    → classify other text ≡ discard
unfolding classify named
classify-relabelled kind other text n e d = ground (arith, eq_iff kind "name", eq_iff other "name")
