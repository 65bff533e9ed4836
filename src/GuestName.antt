-- ===== src/GuestName.antt =====
-- static/guest-name.js: pseudonyms, and the names that guests send inside the encrypted channel. A
-- text is its UTF-16 units; a value that is no text is `none`. The random bytes of a pseudonym are an
-- argument.
pub mod Labels
pub mod Clean
pub mod Pseudonym
pub mod Tests
use sozvon.Base.{
  ℕ, suc, ◌+◌, ◌%◌, units, String, Bool, true, false, ◌&&◌, ◌||◌, Option, none, some, List, [], ◌∷◌,
  ◌++◌, length, take, drop, get_elem?, leb, ◌==◌, if◌then◌else◌, str_eq, lookup, insert, erase,
}

abbrev pub Text : Type 0
Text = List ℕ

abbrev pub alphabet : Text
alphabet = units "abcdefghijkmnpqrstuvwxyz23456789"

abbrev pub pseudonym_length : ℕ
pseudonym_length = 10

abbrev pub max_length : ℕ
max_length = 64

-- "\u0001sozvon-name\u0001"
abbrev pub mark : Text
mark = 1 ∷ (units "sozvon-name" ++ (1 ∷ []))

unfoldable pub or_zero : Option ℕ → ℕ
or_zero none = 0
or_zero (some c) = c

-- The letter that a random byte picks.
unfoldable pub letter : ℕ → ℕ
unfolding or_zero
letter b = or_zero (get_elem? alphabet (b % 32))

unfoldable pub spell : List ℕ → Text
spell [] = []
spell (b ∷ bs) = letter b ∷ spell bs

unfoldable pub make_pseudonym : List ℕ → Text
unfolding spell
make_pseudonym bytes = 126 ∷ spell (take pseudonym_length bytes)

abbrev pub between : ℕ → ℕ → ℕ → Bool
between a b c = leb a c && leb c b

-- `[a-z2-9]`
unfoldable pub is_letter : ℕ → Bool
is_letter c = between 97 122 c || between 50 57 c

unfoldable pub are_letters : Text → Bool
unfolding is_letter
are_letters [] = true
are_letters (c ∷ s) = is_letter c && are_letters s

-- `/^~[a-z2-9]{10}$/`
unfoldable pub matches : Text → Bool
unfolding are_letters
matches [] = false
matches (c ∷ s) = (c == 126) && (length s == pseudonym_length) && are_letters s

unfoldable pub is_pseudonym : Option Text → Bool
unfolding matches
is_pseudonym none = false
is_pseudonym (some t) = matches t

-- The first class of `clean`.
unfoldable pub is_control : ℕ → Bool
is_control c =
    between 0 31 c
    || between 127 159 c
    || between 8203 8207 c
    || between 8232 8238 c
    || between 8294 8297 c

-- `\s`
unfoldable pub is_space : ℕ → Bool
is_space c =
    between 9 13 c
    || (c == 32)
    || (c == 160)
    || (c == 5760)
    || between 8192 8202 c
    || between 8232 8233 c
    || (c == 8239)
    || (c == 8287)
    || (c == 12288)
    || (c == 65279)

unfoldable pub remove_controls : Text → Text
unfolding is_control
remove_controls [] = []
remove_controls (c ∷ s) = if is_control c then remove_controls s else c ∷ remove_controls s

-- One space before a text that may begin with the one of its own run.
unfoldable pub space_before : Text → Text
space_before [] = 32 ∷ []
space_before (c ∷ s) = if c == 32 then c ∷ s else 32 ∷ c ∷ s

-- `replace(/\s+/g, ' ')`
unfoldable pub collapse : Text → Text
unfolding is_space space_before
collapse [] = []
collapse (c ∷ s) = let rest = collapse s in if is_space c then space_before rest else c ∷ rest

unfoldable pub trim_start : Text → Text
unfolding is_space
trim_start [] = []
trim_start (c ∷ s) = if is_space c then trim_start s else c ∷ s

unfoldable pub end_at : ℕ → Text → Text
unfolding is_space
end_at c [] = if is_space c then [] else c ∷ []
end_at c (d ∷ s) = c ∷ d ∷ s

unfoldable pub trim_end : Text → Text
unfolding end_at
trim_end [] = []
trim_end (c ∷ s) = end_at c (trim_end s)

unfoldable pub clean_text : Text → Text
unfolding remove_controls collapse trim_start trim_end
clean_text t = take max_length (trim_end (trim_start (collapse (remove_controls t))))

unfoldable pub clean : Option Text → Text
unfolding clean_text
clean none = []
clean (some t) = clean_text t

unfoldable pub pack : Option Text → Text
unfolding clean
pack given = mark ++ clean given

unfoldable pub starts_with : Text → Text → Bool
starts_with [] t = true
starts_with (p ∷ ps) [] = false
starts_with (p ∷ ps) (c ∷ t) = (p == c) && starts_with ps t

unfoldable pub is_marked : Option Text → Bool
unfolding starts_with
is_marked none = false
is_marked (some t) = starts_with mark t

pub data Sorted : Type 0 where
  name : Text → Sorted
  chat discard : Sorted

unfoldable pub named : Text → Sorted
named [] = discard
named (c ∷ s) = name (c ∷ s)

unfoldable pub unpack : Option Text → Text
unfolding clean_text
unpack none = []
unpack (some t) = clean_text (drop (length mark) t)

unfoldable pub classify : String → Option Text → Sorted
unfolding is_marked named unpack
classify kind text =
    if str_eq kind "name"
    then (if is_marked text then named (unpack text) else discard)
    else if is_marked text
    then discard
    else chat

abbrev pub Book : Type 0
Book = List (String × Text)

unfoldable pub same_text : Text → Text → Bool
same_text [] [] = true
same_text (c ∷ s) (d ∷ t) = (c == d) && same_text s t
same_text _ _ = false

abbrev pub holds : Text → Option Text → Bool
holds t none = false
holds t (some u) = same_text t u

unfoldable pub record_name : String → Text → Book → Book × Bool
unfolding same_text
record_name id [] book = (book, false)
record_name id (c ∷ s) book =
    if holds (c ∷ s) (lookup id book) then (book, false) else (insert id (c ∷ s) book, true)

-- `Book.prototype.set`
unfoldable pub set : String → Option Text → Book → Book × Bool
unfolding record_name clean
set id given book = record_name id (clean given) book

unfoldable pub delete : String → Book → Book
delete id book = erase id book

abbrev pub or_nothing : Option Text → Text
or_nothing none = []
or_nothing (some t) = t

unfoldable pub shown : String → Option Text → Book → Text
unfolding is_pseudonym
shown id username book =
    if is_pseudonym username then or_nothing (lookup id book) else or_nothing username
