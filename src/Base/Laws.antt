-- ===== src/Base/Laws.antt =====
-- src/models/base.py: the name of a table is the name of its own table.
use Prim.Native.Char.{Char}
use prd_api_wrapper.Prelude.{String, Bool, true, false, ◌&&◌, ◌≡◌, refl, if◌then◌else◌}
use prd_api_wrapper.Prelude.Case.{NoCapital, lower-NoCapital, lower_same}
use prd_api_wrapper.Base.{
  is_lower, is_small, is_dot, starts_word, starts_upper, Place, opens, place_after, mark_words,
  mark_capitals, camel_to_snake,
}

and_false : (b : Bool) → (b && false) ≡ false
and_false true = refl
and_false false = refl

if_same : {A : Type 0} (b : Bool) (x : A) → (if b then x else x) ≡ x
if_same true x = refl
if_same false x = refl

starts_word-NoCapital : (s : String) → NoCapital s → starts_word s ≡ false
starts_word-NoCapital String.[] n = refl
starts_word-NoCapital (String.◌∷◌ c s) n = rw n.0 refl

starts_upper-NoCapital : (s : String) → NoCapital s → starts_upper s ≡ false
starts_upper-NoCapital String.[] n = refl
starts_upper-NoCapital (String.◌∷◌ c s) n = n.0

opens-NoCapital : (p : Place) (c : Char) (s : String) → NoCapital s → opens p c s ≡ false
opens-NoCapital Place.between c s n = rw (starts_word-NoCapital s n) (and_false (is_dot c))
opens-NoCapital Place.capital c s n = refl
opens-NoCapital Place.letters c s n =
    rw (starts_word-NoCapital s n, and_false (is_dot c)) (if_same (is_lower c) false)

mark_words_same : (p : Place) (s : String) → NoCapital s → mark_words p s ≡ s
unfolding mark_words
mark_words_same p String.[] n = refl
mark_words_same p (String.◌∷◌ c s) n =
    rw (opens-NoCapital p c s n.1, mark_words_same (place_after p c s) s n.1) refl

mark_capitals_same : (s : String) → NoCapital s → mark_capitals s ≡ s
unfolding mark_capitals
mark_capitals_same String.[] n = refl
mark_capitals_same (String.◌∷◌ c s) n =
    rw (starts_upper-NoCapital s n.1, and_false (is_small c), mark_capitals_same s n.1) refl

pub camel_to_snake_same : (s : String) → NoCapital s → camel_to_snake s ≡ s
unfolding camel_to_snake
camel_to_snake_same s n =
    rw (mark_words_same Place.between s n, mark_capitals_same s n) (lower_same s n)

camel_to_snake-NoCapital : (s : String) → NoCapital (camel_to_snake s)
unfolding camel_to_snake
camel_to_snake-NoCapital s = lower-NoCapital (mark_capitals (mark_words Place.between s))

-- The name that a class gets for its table has no capital letter, whatever the class is called (in
-- ASCII), and the function leaves it as it is.
pub camel_to_snake_stable :
    (s : String)
    → NoCapital (camel_to_snake s) × (camel_to_snake (camel_to_snake s) ≡ camel_to_snake s)
camel_to_snake_stable s = (
  camel_to_snake-NoCapital s,
  camel_to_snake_same (camel_to_snake s) (camel_to_snake-NoCapital s),
)
