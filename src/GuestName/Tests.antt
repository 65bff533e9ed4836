-- ===== src/GuestName/Tests.antt =====
-- Names of guests at concrete inputs.
use sozvon.Base.{
  str_eq, eq_iff, ℕ, units, ◌≤◌, ◌≡◌, ◌≢◌, refl, String, true, Option, some, List, [], ◌∷◌, length,
  All, lookup, insert, erase,
}
use sozvon.GuestName.{
  Text, or_zero, letter, spell, make_pseudonym, is_letter, are_letters, matches, is_pseudonym,
  is_control, is_space, remove_controls, space_before, collapse, trim_start, end_at, trim_end,
  clean_text, clean, pack, starts_with, is_marked, name, named, unpack, classify, same_text,
  record_name, set, delete, shown,
}
use sozvon.GuestName.Clean.{IsShowable, AreSingle, clean-AreShowable}

machine : Unit {0}
unfolding or_zero letter spell make_pseudonym is_letter are_letters matches is_pseudonym is_control
    is_space remove_controls space_before collapse trim_start end_at trim_end clean_text clean pack
    starts_with is_marked named unpack classify same_text record_name set delete shown lookup insert
    erase
machine = tt

abbrev typed : Option Text
typed = some (units "  Ann \n  Lee ")

cleaned : clean typed ≡ units "Ann Lee"
unfolding machine
cleaned = refl

arrives : classify "name" (some (pack typed)) ≡ name (units "Ann Lee")
unfolding machine
arrives = refl

abbrev label : String
label = "name"

abbrev me : String
me = "me"

differ : me ≢ label
differ = λ e. let h : str_eq me label ≡ true = (eq_iff me label).1 e in cc

clean-AreShowable_example :
    (length (clean typed) ≤ 64) × All IsShowable (clean typed) × AreSingle (clean typed)
clean-AreShowable_example = clean-AreShowable typed

abbrev drawn : List ℕ
drawn = 0 ∷ 31 ∷ 32 ∷ 255 ∷ 100 ∷ 7 ∷ 9 ∷ 200 ∷ 13 ∷ 64 ∷ []

abbrev hidden : Text
hidden = make_pseudonym drawn

something : clean typed ≢ []
something = λ e. let p : units "Ann Lee" ≡ [] = rw cleaned at e in cc
