-- ===== src/Migrations/Laws.antt =====
-- migrations/versions/: the scripts, the classes they serve, and the way back.
use prd_api_wrapper.Prelude.{Option, none, some, List, [], ◌∷◌, ◌++◌, ◌≡◌, refl, sym, ◌∙◌}
use prd_api_wrapper.Migrations.{
  Table, Index, api_key, ix_api_key_key_hash, usage, ix_usage_api_key_id_created_at,
  ix_usage_created_at, job, ix_job_api_key_id_created_at, Operations, ◌>>=◌, in_order, upgrade_keys,
  downgrade_keys, upgrade_job, downgrade_job, upgrade, downgrade,
}
use prd_api_wrapper.Migrations.Classes.{classes}
use prd_api_wrapper.Migrations.Tables.{create_all}

bind_same {ℓ} :
    {S : Type ℓ} (p : List (S → Option S)) (q : List (S → Option S)) (r : List (S → Option S))
    → ((s : S) → (in_order p s >>= in_order q) ≡ in_order r s)
    → (o : Option S) → (o >>= in_order p >>= in_order q) ≡ (o >>= in_order r)
bind_same p q r same none = refl
bind_same p q r same (some s) = same s

in_order-append {ℓ} :
    {S : Type ℓ} (p : List (S → Option S)) (q : List (S → Option S)) (s : S)
    → (in_order p s >>= in_order q) ≡ in_order (p ++ q) s
in_order-append [] q s = refl
in_order-append (o ∷ p) q s = bind_same p q (p ++ q) (in_order-append p q) (o s)

-- What the first operation does, the second takes back.
abbrev pub Undoes {ℓ} : {S : Type ℓ} → (S → Option S) → (S → Option S) → Type ℓ
Undoes {S = S} g f = (s : S) (t : S) → f s ≡ some t → g t ≡ some s

Undoes-bind {ℓ} :
    {S : Type ℓ} (f : S → Option S) (g : S → Option S) (f' : S → Option S) (g' : S → Option S)
    → Undoes g f
    → Undoes g' f'
    → Undoes (λ t. g' t >>= g) (λ s. f s >>= f')
Undoes-bind {S = S} f g f' g' u u' s t h = first (f s) refl h
  where
    first : (r : Option S) → f s ≡ r → (r >>= f') ≡ some t → (g' t >>= g) ≡ some s
    first none e e' = cc
    first (some v) e e' = rw (u' v t e') (u s v e)

-- What Alembic's documentation promises of the two operations that drop: each takes back the one
-- that creates.
pub record Reversible {ℓ} {S : Type ℓ} (op : Operations S) : Type ℓ where
  pub table_dropped :
      (t : Table) (s : S) (s' : S)
      → op.create_table t s ≡ some s'
      → op.drop_table t.name s' ≡ some s
  pub index_dropped :
      (i : Index) (s : S) (s' : S)
      → op.create_index i s ≡ some s'
      → op.drop_index i.name i.table s' ≡ some s

-- A step of a script.
data Creation : Type 0 where
  table : Table → Creation
  index : Index → Creation

module _ {ℓ} {S : Type ℓ} (op : Operations S) where
  abbrev creates : List Creation → List (S → Option S)
  creates [] = []
  creates (Creation.table t ∷ cs) = op.create_table t ∷ creates cs
  creates (Creation.index i ∷ cs) = op.create_index i ∷ creates cs

  abbrev drops : List Creation → List (S → Option S)
  drops [] = []
  drops (Creation.table t ∷ cs) = drops cs ++ op.drop_table t.name ∷ []
  drops (Creation.index i ∷ cs) = drops cs ++ op.drop_index i.name i.table ∷ []

  drops_last :
      (u : S → Option S) (o : S → Option S) (cs : List Creation)
      → Undoes u o
      → Undoes (in_order (drops cs)) (in_order (creates cs))
      → Undoes (in_order (drops cs ++ u ∷ [])) (in_order (o ∷ creates cs))
  drops_last u o cs undo rest s t h =
      sym (in_order-append (drops cs) (u ∷ []) t)
      ∙ Undoes-bind o (in_order (u ∷ [])) (in_order (creates cs)) (in_order (drops cs))
          (alone u o undo) rest s t h
    where
      alone : (u : S → Option S) (o : S → Option S) → Undoes u o → Undoes (in_order (u ∷ [])) o
      alone u o undo s t h = rw (undo s t h) refl

  drops-creates :
      Reversible op → (cs : List Creation) → Undoes (in_order (drops cs)) (in_order (creates cs))
  drops-creates r [] = λ s t h. sym h
  drops-creates r (Creation.table a ∷ cs) =
      drops_last (op.drop_table a.name) (op.create_table a) cs (r.table_dropped a)
        (drops-creates r cs)
  drops-creates r (Creation.index i ∷ cs) =
      drops_last (op.drop_index i.name i.table) (op.create_index i) cs (r.index_dropped i)
        (drops-creates r cs)

  -- The upgrade to the newest revision asks the database for what the classes of the models
  -- declare and for nothing else: each table under the name made of its class's, with its columns,
  -- their types, lengths, defaults and keys, and then its indexes.
  pub upgrade_declared : (s : S) → upgrade op s ≡ in_order (create_all op classes) s
  unfolding upgrade upgrade_keys upgrade_job create_all
  upgrade_declared s =
      in_order-append
        (op.create_table api_key
          ∷ op.create_index ix_api_key_key_hash
          ∷ op.create_table usage
          ∷ op.create_index ix_usage_api_key_id_created_at
          ∷ op.create_index ix_usage_created_at
          ∷ [])
        (op.create_table job ∷ op.create_index ix_job_api_key_id_created_at ∷ []) s

  keys_undone : Reversible op → Undoes (downgrade_keys op) (upgrade_keys op)
  unfolding downgrade_keys upgrade_keys
  keys_undone r = drops-creates r (
      Creation.table api_key
      ∷ Creation.index ix_api_key_key_hash
      ∷ Creation.table usage
      ∷ Creation.index ix_usage_api_key_id_created_at
      ∷ Creation.index ix_usage_created_at
      ∷ [])

  job_undone : Reversible op → Undoes (downgrade_job op) (upgrade_job op)
  unfolding downgrade_job upgrade_job
  job_undone r =
      drops-creates r (Creation.table job ∷ Creation.index ix_job_api_key_id_created_at ∷ [])

  -- The downgrade from the newest revision to none takes the upgrade back: after an upgrade that
  -- the database accepted, the downgrade is accepted as well and leaves the schema that was there
  -- before, given that each operation that drops takes back the one that creates.
  pub downgrade-upgrade :
      Reversible op → (s : S) (t : S) → upgrade op s ≡ some t → downgrade op t ≡ some s
  unfolding upgrade downgrade
  downgrade-upgrade r =
      Undoes-bind (upgrade_keys op) (downgrade_keys op) (upgrade_job op) (downgrade_job op)
        (keys_undone r) (job_undone r)
