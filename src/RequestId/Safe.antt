-- ===== src/RequestId/Safe.antt =====
-- The ids that src/middleware/request_id.py takes from a client.
use Prim.Native.Char.{Char, code}
use Prim.Native.String.append.{nil, cons}
use prd_api_wrapper.Prelude.{
  ℕ, zero, suc, ◌≤◌, ◌<◌, String, ◌≡◌, refl, sym, ap, ◌∙◌, ◌⊎◌, inl, inr, arith, true, false,
  Option, none, some, Bool-cases, join, length,
}
use prd_api_wrapper.RequestId.{is_safe_char, matches_up_to, is_safe_id, incoming_id, chosen_id}

-- A letter of ASCII, a digit, a full stop, an underscore or a hyphen.
abbrev pub IsSafeChar : Char → Type 0
IsSafeChar c =
    ((65 ≤ code c) × (code c ≤ 90))
    ⊎ ((97 ≤ code c) × (code c ≤ 122))
    ⊎ ((48 ≤ code c) × (code c ≤ 57))
    ⊎ (code c ≡ 46)
    ⊎ (code c ≡ 95)
    ⊎ (code c ≡ 45)

abbrev pub AllSafe : String → Type 0
AllSafe String.[] = Unit
AllSafe (String.◌∷◌ c s) = IsSafeChar c × AllSafe s

-- Nothing, or one line feed.
abbrev pub IsEnd : String → Type 0
IsEnd String.[] = Unit
IsEnd (String.◌∷◌ c String.[]) = code c ≡ 10
IsEnd (String.◌∷◌ c s) = ⊥

-- At most `most` safe characters and the end.
abbrev pub IsSafeUpTo : ℕ → String → Type 0
IsSafeUpTo most s =
    (name : String) × (end : String) × (s ≡ join name end)
    × (length name ≤ most)
    × AllSafe name
    × IsEnd end

-- 1 to 64 safe characters and the end.
abbrev pub IsSafe : String → Type 0
IsSafe s =
    (name : String) × (end : String) × (s ≡ join name end)
    × (0 < length name)
    × (length name ≤ 64)
    × AllSafe name
    × IsEnd end

is_safe_char-IsSafeChar : (c : Char) → is_safe_char c ≡ true → IsSafeChar c
unfolding is_safe_char
is_safe_char-IsSafeChar c h = ground arith

more-IsSafeUpTo :
    (n : ℕ) (c : Char) (s : String)
    → IsSafeChar c
    → IsSafeUpTo n s
    → IsSafeUpTo (suc n) (String.◌∷◌ c s)
more-IsSafeUpTo n c s safe (name, end, e, short, all, last) = (
  String.◌∷◌ c name,
  end,
  ap (String.◌∷◌ c) e ∙ sym (cons c name end),
  omega arith,
  (safe, all),
  last,
)

matches_up_to-IsSafeUpTo : (n : ℕ) (s : String) → matches_up_to n s ≡ true → IsSafeUpTo n s
unfolding matches_up_to
matches_up_to-IsSafeUpTo n String.[] h = ("", "", sym (nil ""), omega arith, tt, tt)
matches_up_to-IsSafeUpTo zero (String.◌∷◌ c String.[]) h =
    ("", String.◌∷◌ c String.[], sym (nil _), omega arith, tt, ground arith)
matches_up_to-IsSafeUpTo zero (String.◌∷◌ c (String.◌∷◌ d s)) h = cc
matches_up_to-IsSafeUpTo (suc n) (String.◌∷◌ c String.[]) h = elim (Bool-cases (is_safe_char c)) [
  | inl y ↦
      more-IsSafeUpTo n c "" (is_safe_char-IsSafeChar c y)
        ("", "", sym (nil ""), omega arith, tt, tt)
  | inr other ↦ ("", String.◌∷◌ c String.[], sym (nil _), omega arith, tt, ground arith)
]
matches_up_to-IsSafeUpTo (suc n) (String.◌∷◌ c (String.◌∷◌ d s)) h =
    elim (Bool-cases (is_safe_char c)) [
      | inl y ↦
          more-IsSafeUpTo n c (String.◌∷◌ d s) (is_safe_char-IsSafeChar c y)
            (matches_up_to-IsSafeUpTo n (String.◌∷◌ d s) (ground arith))
      | inr other ↦ absurd (ground arith)
    ]

is_safe_id-IsSafe : (s : String) → is_safe_id s ≡ true → IsSafe s
unfolding is_safe_id
is_safe_id-IsSafe String.[] h = cc
is_safe_id-IsSafe (String.◌∷◌ c s) h =
    let safe : is_safe_char c ≡ true = ground arith in
    let (name, end, e, short, all, last) = matches_up_to-IsSafeUpTo 63 s (ground arith) in
    (
      String.◌∷◌ c name,
      end,
      ap (String.◌∷◌ c) e ∙ sym (cons c name end),
      omega arith,
      omega arith,
      (is_safe_char-IsSafeChar c safe, all),
      last,
    )

IsSafeChar-is_safe_char : (c : Char) → IsSafeChar c → is_safe_char c ≡ true
unfolding is_safe_char
IsSafeChar-is_safe_char c h = ground arith

more-matches_up_to :
    (n : ℕ) (c : Char) (s : String)
    → is_safe_char c ≡ true
    → matches_up_to n s ≡ true
    → matches_up_to (suc n) (String.◌∷◌ c s) ≡ true
unfolding matches_up_to
more-matches_up_to n c String.[] y h = rw y refl
more-matches_up_to n c (String.◌∷◌ d s) y h = rw y h

end-matches_up_to : (n : ℕ) (end : String) → IsEnd end → matches_up_to n end ≡ true
unfolding matches_up_to
end-matches_up_to n String.[] h = refl
end-matches_up_to zero (String.◌∷◌ c String.[]) h = ground arith
end-matches_up_to (suc n) (String.◌∷◌ c String.[]) h = ground arith
end-matches_up_to n (String.◌∷◌ c (String.◌∷◌ d s)) h = absurd h

IsSafeUpTo-matches_up_to :
    (n : ℕ) (name end : String)
    → length name ≤ n
    → AllSafe name
    → IsEnd end
    → matches_up_to n (join name end) ≡ true
IsSafeUpTo-matches_up_to n String.[] end short all last =
    rw (nil end) (end-matches_up_to n end last)
IsSafeUpTo-matches_up_to zero (String.◌∷◌ c name) end short all last = absurd (omega arith)
IsSafeUpTo-matches_up_to (suc n) (String.◌∷◌ c name) end short (safe, all) last =
    rw (cons c name end) (
      more-matches_up_to n c (join name end) (IsSafeChar-is_safe_char c safe)
        (IsSafeUpTo-matches_up_to n name end (omega arith) all last))

IsSafe-is_safe_id :
    (name end : String)
    → 0 < length name
    → length name ≤ 64
    → AllSafe name
    → IsEnd end
    → is_safe_id (join name end) ≡ true
unfolding is_safe_id
IsSafe-is_safe_id String.[] end low high all last = absurd (omega arith)
IsSafe-is_safe_id (String.◌∷◌ c name) end low high (safe, all) last =
    let rest = IsSafeUpTo-matches_up_to 63 name end (omega arith) all last in
    rw (cons c name end, IsSafeChar-is_safe_char c safe, rest) refl

refused-IsSafe : (s sent : String) → is_safe_id s ≡ false → some s ≡ some sent → ¬ IsSafe sent
refused-IsSafe s sent refused h (name, end, e, low, high, all, last) =
    let taken : is_safe_id sent ≡ true =
      ap is_safe_id e ∙ IsSafe-is_safe_id name end low high all last in
    cc

-- What the client sent if it is safe, and else the fresh id.
pub chosen_id_cases :
    (header : Option String) (fresh : String)
    → ((header ≡ some (chosen_id header fresh)) × IsSafe (chosen_id header fresh))
      ⊎ ((chosen_id header fresh ≡ fresh) × ((sent : String) → header ≡ some sent → ¬ IsSafe sent))
unfolding incoming_id
chosen_id_cases none fresh = inr (refl, λ sent h. cc)
chosen_id_cases (some String.[]) fresh =
    inr (refl, λ sent h. refused-IsSafe "" sent (unfold is_safe_id in refl) h)
chosen_id_cases (some (String.◌∷◌ c s)) fresh = elim (Bool-cases (is_safe_id (String.◌∷◌ c s))) [
  | inl y ↦ rw y (inl (refl, is_safe_id-IsSafe (String.◌∷◌ c s) y))
  | inr other ↦ rw other (inr (refl, λ sent h. refused-IsSafe (String.◌∷◌ c s) sent other h))
]
