-- ===== src/Json.antt =====
-- JSON values as `json.loads` and `dict` literals give them to the services.
use prd_api_wrapper.Prelude.{
  ℕ, zero, suc, ℤ, pos, negsuc, String, ◌≡◌, refl, Bool, true, false, Option, none, some, [], ◌∷◌,
  str_eq, truthy, arith, if◌then◌else◌,
}
use prd_api_wrapper.Prelude.Dict.{Dict, lookup}

-- Of a float only its printed form and whether it is zero
-- are ever looked at.
mutual
  pub data Entries : Type 0 where
    no_entry : Entries
    entry : (name : String) → Json → Entries → Entries

  pub data Json : Type 0 where
    str : String → Json
    obj : Entries → Json
    arr : Elements → Json
    int : ℤ → Json
    float : (printed : String) (nonzero : Bool) → Json
    bool : Bool → Json
    null : Json

  pub data Elements : Type 0 where
    no_element : Elements
    element : Json → Elements → Elements

-- A natural number as a JSON integer.
abbrev pub nat : ℕ → Json
nat n = int (pos n)

-- `d.get(name)` of a dict
unfoldable pub get_entry : String → Entries → Option Json
get_entry k no_entry = none
get_entry k (entry j v fs) = if str_eq j k then some v else get_entry k fs

-- A dict as the JSON object that it is encoded to.
unfoldable pub entries_of : Dict Json → Entries
entries_of [] = no_entry
entries_of ((k, v) ∷ d) = entry k v (entries_of d)

pub get_entry-entries_of : (k : String) (d : Dict Json) → get_entry k (entries_of d) ≡ lookup k d
unfolding get_entry entries_of lookup
get_entry-entries_of k [] = refl
get_entry-entries_of k ((j, v) ∷ d) = ground (arith, get_entry-entries_of k d)

-- `v[name]` of an object, and nothing of any other value.
unfoldable pub member : String → Json → Option Json
unfolding get_entry
member k (obj fs) = get_entry k fs
member k _ = none

-- `bool(v)`
unfoldable pub json_truthy : Json → Bool
json_truthy null = false
json_truthy (bool b) = b
json_truthy (int (pos zero)) = false
json_truthy (int (pos (suc n))) = true
json_truthy (int (negsuc n)) = true
json_truthy (float printed nonzero) = nonzero
json_truthy (str s) = truthy s
json_truthy (arr no_element) = false
json_truthy (arr (element v vs)) = true
json_truthy (obj no_entry) = false
json_truthy (obj (entry k v fs)) = true
