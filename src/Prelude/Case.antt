-- ===== src/Prelude/Case.antt =====
-- `str.lower`, for texts of ASCII characters.
use Prim.Native.Char.{Char, code}
use Prim.Native.Nat.{ℕ, zero, suc, ◌-◌, ◌<◌}
use Prim.Native.String.{String}
use mathlib.Core.Path.{◌≡◌, refl}
use mathlib.Core.Logic.{inl, inr}
use mathlib.Core.Bool.{Bool, true, false, ◌&&◌}
use native.Mathlib.Omega.{arith}
use prd_api_wrapper.Prelude.Tests.{leb, Bool-cases, if◌then◌else◌}
use prd_api_wrapper.Prelude.Text.{length}

abbrev pub nth_char : ℕ → String → Char → Char
nth_char i String.[] d = d
nth_char zero (String.◌∷◌ c s) d = c
nth_char (suc i) (String.◌∷◌ c s) d = nth_char i s d

-- `[A-Z]`
abbrev pub is_upper : Char → Bool
is_upper c = leb b'A' (code c) && leb (code c) b'Z'

abbrev pub lower_char : Char → Char
lower_char c = if is_upper c then nth_char (code c - b'A') "abcdefghijklmnopqrstuvwxyz" c else c

unfoldable pub lower : String → String
lower String.[] = String.[]
lower (String.◌∷◌ c s) = String.◌∷◌ (lower_char c) (lower s)

-- There is no capital in the text.
abbrev pub NoCapital : String → Type 0
NoCapital String.[] = Unit
NoCapital (String.◌∷◌ c s) = (is_upper c ≡ false) × NoCapital s

nth_char-NoCapital :
    (i : ℕ) (s : String) (d : Char) → i < length s → NoCapital s → is_upper (nth_char i s d) ≡ false
nth_char-NoCapital i String.[] d h n = elim h [ ]
nth_char-NoCapital zero (String.◌∷◌ c s) d h n = n.0
nth_char-NoCapital (suc i) (String.◌∷◌ c s) d h n = nth_char-NoCapital i s d (omega arith) n.1

upper_index : (c : Char) → is_upper c ≡ true → code c - b'A' < 26
upper_index c h = ground arith

letters-NoCapital : NoCapital "abcdefghijklmnopqrstuvwxyz"
letters-NoCapital = (
  refl,
  (
    refl,
    (
      refl,
      (
        refl,
        (
          refl,
          (
            refl,
            (
              refl,
              (
                refl,
                (
                  refl,
                  (
                    refl,
                    (
                      refl,
                      (
                        refl,
                        (
                          refl,
                          (
                            refl,
                            (
                              refl,
                              (
                                refl,
                                (
                                  refl,
                                  (
                                    refl,
                                    (
                                      refl,
                                      (refl, (refl, (refl, (refl, (refl, (refl, (refl, tt))))))),
                                    ),
                                  ),
                                ),
                              ),
                            ),
                          ),
                        ),
                      ),
                    ),
                  ),
                ),
              ),
            ),
          ),
        ),
      ),
    ),
  ),
)

lower_char-NoCapital : (c : Char) → is_upper (lower_char c) ≡ false
lower_char-NoCapital c = elim (Bool-cases (is_upper c)) [
  | inl capital ↦ rw capital (
      nth_char-NoCapital (code c - b'A') "abcdefghijklmnopqrstuvwxyz" c (upper_index c capital)
        letters-NoCapital)
  | inr other ↦ rw other other
]

pub lower-NoCapital : (s : String) → NoCapital (lower s)
unfolding lower
lower-NoCapital String.[] = tt
lower-NoCapital (String.◌∷◌ c s) = (lower_char-NoCapital c, lower-NoCapital s)

pub lower_same : (s : String) → NoCapital s → lower s ≡ s
unfolding lower
lower_same String.[] n = refl
lower_same (String.◌∷◌ c s) n = rw (n.0, lower_same s n.1)
