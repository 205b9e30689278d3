-- ===== src/Base.antt =====
-- src/models/base.py: the name of a class's table.
use Prim.Native.Char.{Char, code}
use prd_api_wrapper.Prelude.{
  String, Bool, true, false, not, ◌&&◌, ◌||◌, leb, ◌==◌, if◌then◌else◌, join,
}
use prd_api_wrapper.Prelude.Case.{is_upper, lower}
pub mod Laws
mod Tests

-- `[a-z]`
abbrev pub is_lower : Char → Bool
is_lower c = leb b'a' (code c) && leb (code c) b'z'

-- `[a-z0-9]`
abbrev pub is_small : Char → Bool
is_small c = is_lower c || leb b'0' (code c) && leb (code c) b'9'

-- `.`, which takes no line feed
abbrev pub is_dot : Char → Bool
is_dot c = not (code c == 10)

-- `[a-z]` first in the text
abbrev pub starts_lower : String → Bool
starts_lower String.[] = false
starts_lower (String.◌∷◌ c s) = is_lower c

-- `[A-Z]` first in the text
abbrev pub starts_upper : String → Bool
starts_upper String.[] = false
starts_upper (String.◌∷◌ c s) = is_upper c

-- `[A-Z][a-z]` first in the text
abbrev pub starts_word : String → Bool
starts_word String.[] = false
starts_word (String.◌∷◌ c s) = is_upper c && starts_lower s

-- Where a search for `(.)([A-Z][a-z]+)` stands: between matches, before the capital of one, or
-- among its small letters.
pub data Place : Type 0 where
  between : Place
  capital : Place
  letters : Place

-- The character of a match's first group.
abbrev pub opens : Place → Char → String → Bool
opens Place.between c s = is_dot c && starts_word s
opens Place.capital c s = false
opens Place.letters c s = if is_lower c then false else is_dot c && starts_word s

abbrev pub place_after : Place → Char → String → Place
place_after Place.between c s = if is_dot c && starts_word s then Place.capital else Place.between
place_after Place.capital c s = Place.letters
place_after Place.letters c s =
    if is_lower c
    then Place.letters
    else (if is_dot c && starts_word s then Place.capital else Place.between)

-- `\1_`
abbrev pub marked : Bool → Char → String → String
marked true c s = String.◌∷◌ c (join "_" s)
marked false c s = String.◌∷◌ c s

-- `re.sub("(.)([A-Z][a-z]+)", r"\1_\2", name)`
unfoldable pub mark_words : Place → String → String
mark_words p String.[] = String.[]
mark_words p (String.◌∷◌ c s) = marked (opens p c s) c (mark_words (place_after p c s) s)

-- `re.sub("([a-z0-9])([A-Z])", r"\1_\2", name)`. The capital that ends a match begins no other.
unfoldable pub mark_capitals : String → String
mark_capitals String.[] = String.[]
mark_capitals (String.◌∷◌ c s) = marked (is_small c && starts_upper s) c (mark_capitals s)

unfoldable pub camel_to_snake : String → String
unfolding mark_words mark_capitals lower
camel_to_snake name = lower (mark_capitals (mark_words Place.between name))
