-- ===== src/GuestName/Pseudonym.antt =====
-- A pseudonym that is made is one that is recognised, and what is shown in its place.
use sozvon.Base.{
  ℕ, zero, suc, ◌≤◌, ◌<◌, ◌%◌, ◌≡◌, ◌≢◌, refl, String, true, Option, none, some, List, [], ◌∷◌,
  take, length, length-take, get_elem?, arith, lookup, lookup-insert, eq_refl, Bool-cases, inl, inr,
}
use sozvon.GuestName.{
  Text, alphabet, letter, or_zero, spell, make_pseudonym, is_letter, are_letters, matches,
  is_pseudonym, Book, set, record_name, holds, same_text, shown, or_nothing, clean,
}

are_letters-get :
    (s : Text) (i : ℕ)
    → are_letters s ≡ true
    → i < length s
    → is_letter (or_zero (get_elem? s i)) ≡ true
unfolding are_letters or_zero
are_letters-get [] i e h = absurd (omega (arith, h))
are_letters-get (c ∷ s) zero e h = ground arith
are_letters-get (c ∷ s) (suc i) e h = are_letters-get s i (ground arith) (omega (arith, h))

alphabet_lem : are_letters alphabet ≡ true
unfolding are_letters is_letter
alphabet_lem = refl

is_letter-letter : (b : ℕ) → is_letter (letter b) ≡ true
unfolding letter
is_letter-letter b = are_letters-get alphabet (b % 32) alphabet_lem (omega arith)

are_letters-spell : (bs : List ℕ) → are_letters (spell bs) ≡ true
unfolding are_letters spell
are_letters-spell [] = refl
are_letters-spell (b ∷ bs) = rw (is_letter-letter b, are_letters-spell bs) refl

length-spell : (bs : List ℕ) → length (spell bs) ≡ length bs
unfolding spell
length-spell [] = refl
length-spell (b ∷ bs) = omega (arith, length-spell bs)

-- Whatever ten random bytes or more are drawn, the pseudonym made of them is recognised as one.
pub is_pseudonym-make_pseudonym :
    (bytes : List ℕ) → 10 ≤ length bytes → is_pseudonym (some (make_pseudonym bytes)) ≡ true
unfolding is_pseudonym make_pseudonym matches
is_pseudonym-make_pseudonym bytes h =
    ground
      (arith, are_letters-spell (take 10 bytes), length-spell (take 10 bytes), length-take 10 bytes)

same_text-equal : (s t : Text) → same_text s t ≡ true → s ≡ t
unfolding same_text
same_text-equal [] [] e = refl
same_text-equal [] (d ∷ t) e = cc
same_text-equal (c ∷ s) [] e = cc
same_text-equal (c ∷ s) (d ∷ t) e =
    let p : c ≡ d = ground arith in let q = same_text-equal s t (ground arith) in cc

holds-some : (t : Text) (o : Option Text) → holds t o ≡ true → o ≡ some t
holds-some t none e = cc
holds-some t (some u) e = let p = same_text-equal t u e in cc

record_name-lookup :
    (id : String) (c : ℕ) (s : Text) (book : Book)
    → lookup id (record_name id (c ∷ s) book).0 ≡ some (c ∷ s)
unfolding record_name
record_name-lookup id c s book = elim (Bool-cases (holds (c ∷ s) (lookup id book))) [
  | inl e ↦ rw (e, record_name) (holds-some (c ∷ s) (lookup id book) e)
  | inr e ↦ rw (e, record_name, lookup-insert, eq_refl) refl
]

record_name-shown :
    (id : String) (t : Text) (book : Book)
    → t ≢ []
    → or_nothing (lookup id (record_name id t book).0) ≡ t
record_name-shown id [] book h = absurd (h refl)
record_name-shown id (c ∷ s) book h = rw (record_name-lookup id c s book) refl

-- Once a user under a pseudonym has sent a name of which something is left to show, that is what is
-- shown for them, whether or not it is news.
pub shown-set :
    (id : String) (username given : Option Text) (book : Book)
    → is_pseudonym username ≡ true
    → clean given ≢ []
    → shown id username (set id given book).0 ≡ clean given
unfolding shown set
shown-set id username given book p n = rw p (record_name-shown id (clean given) book n)
