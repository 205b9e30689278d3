-- ===== src/Migrations/Tests.antt =====
-- Runs of the migrations on a catalogue that is kept as two lists.
use prd_api_wrapper.Prelude.{
  String, Bool, true, false, not, ◌||◌, ◌&&◌, Option, none, some, List, [], ◌∷◌, ◌≡◌, refl, ap, sym,
  ◌∙◌, str_eq, eq_refl, if◌then◌else◌,
}
use prd_api_wrapper.Migrations.{
  Table, Index, api_key, ix_api_key_key_hash, usage, ix_usage_api_key_id_created_at,
  ix_usage_created_at, job, ix_job_api_key_id_created_at, Operations, in_order, upgrade, downgrade,
  upgrade_keys, upgrade_job,
}
use prd_api_wrapper.Migrations.Classes.{classes}
use prd_api_wrapper.Migrations.Tables.{create_all}
use prd_api_wrapper.Migrations.Laws.{Reversible, upgrade_declared, downgrade-upgrade}

abbrev Catalogue : Type 0
Catalogue = List Table × List Index

abbrev has_table : String → List Table → Bool
has_table n [] = false
has_table n (t ∷ ts) = str_eq n t.name || has_table n ts

abbrev has_index : String → List Index → Bool
has_index n [] = false
has_index n (i ∷ is) = str_eq n i.name || has_index n is

abbrev without_table : String → List Table → List Table
without_table n [] = []
without_table n (t ∷ ts) = if str_eq n t.name then ts else t ∷ without_table n ts

abbrev without_index : String → List Index → List Index
without_index n [] = []
without_index n (i ∷ is) = if str_eq n i.name then is else i ∷ without_index n is

abbrev create_table : Table → Catalogue → Option Catalogue
create_table t s = if has_table t.name s.0 then none else some (t ∷ s.0, s.1)

abbrev create_index : Index → Catalogue → Option Catalogue
create_index i s =
    if has_table i.table s.0 && not (has_index i.name s.1) then some (s.0, i ∷ s.1) else none

abbrev drop_index : String → String → Catalogue → Option Catalogue
drop_index n t s = if has_index n s.1 then some (s.0, without_index n s.1) else none

abbrev drop_table : String → Catalogue → Option Catalogue
drop_table n s = if has_table n s.0 then some (without_table n s.0, s.1) else none

abbrev catalogue : Operations Catalogue
catalogue = record {
  create_table = create_table;
  create_index = create_index;
  drop_index = drop_index;
  drop_table = drop_table;
}

accepted {ℓ} :
    {A : Type ℓ} (b : Bool) (x : A) (y : A) → (if b then some x else none) ≡ some y → x ≡ y
accepted true x y h = cc
accepted false x y h = cc

refused {ℓ} :
    {A : Type ℓ} (b : Bool) (x : A) (y : A) → (if b then none else some x) ≡ some y → x ≡ y
refused true x y h = cc
refused false x y h = cc

table_back : (t : Table) (s : Catalogue) → drop_table t.name (t ∷ s.0, s.1) ≡ some s
table_back t s = rw (eq_refl t.name) refl

index_back : (i : Index) (s : Catalogue) → drop_index i.name i.table (s.0, i ∷ s.1) ≡ some s
index_back i s = rw (eq_refl i.name) refl

catalogue-Reversible : Reversible catalogue
catalogue-Reversible = record {
  table_dropped = λ t s s' h.
      ap (drop_table t.name) (sym (refused (has_table t.name s.0) (t ∷ s.0, s.1) s' h))
      ∙ table_back t s;
  index_dropped = λ i s s' h.
      ap (drop_index i.name i.table)
        (sym (accepted (has_table i.table s.0 && not (has_index i.name s.1)) (s.0, i ∷ s.1) s' h))
      ∙ index_back i s;
}

-- What the upgrade makes of an empty database.
abbrev upgraded : Catalogue
upgraded = (
  job ∷ usage ∷ api_key ∷ [],
  ix_job_api_key_id_created_at ∷ ix_usage_created_at ∷ ix_usage_api_key_id_created_at
      ∷ ix_api_key_key_hash ∷ [],
)

upgrade-catalogue : upgrade catalogue ([], []) ≡ some upgraded
unfolding upgrade upgrade_keys upgrade_job
upgrade-catalogue = refl

upgrade_declared_example :
    upgrade catalogue ([], []) ≡ in_order (create_all catalogue classes) ([], [])
upgrade_declared_example = upgrade_declared catalogue ([], [])

downgrade-upgrade_example : downgrade catalogue upgraded ≡ some ([], [])
downgrade-upgrade_example =
    downgrade-upgrade catalogue catalogue-Reversible ([], []) upgraded upgrade-catalogue
