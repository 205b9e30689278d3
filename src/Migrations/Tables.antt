-- ===== src/Migrations/Tables.antt =====
-- src/models/tables.py and src/models/base.py: the tables and indexes that the classes declare.
use prd_api_wrapper.Prelude.{
  String, false, Option, none, some, List, [], ◌∷◌, ◌++◌, join, if◌then◌else◌,
}
use prd_api_wrapper.Base.{camel_to_snake}
use prd_api_wrapper.Migrations.{Column, ForeignKey, Table, Index, Operations}
use prd_api_wrapper.Migrations.Classes.{MappedColumn, Model}

abbrev columns_of : List MappedColumn → List Column
columns_of [] = []
columns_of (c ∷ cs) =
    record {
      name = c.name;
      type = c.type;
      nullable = c.nullable;
      autoincrement = c.autoincrement;
      server_default = c.server_default;
    }
    ∷ columns_of cs

abbrev keys_of : List MappedColumn → List String
keys_of [] = []
keys_of (c ∷ cs) = if c.primary_key then c.name ∷ keys_of cs else keys_of cs

abbrev foreign_key_of : MappedColumn → List ForeignKey
foreign_key_of c = elim c.foreign_key [
  | none ↦ []
  | some t ↦ record { column = c.name; refers_to = t } ∷ []
]

abbrev foreign_keys_of : List MappedColumn → List ForeignKey
foreign_keys_of [] = []
foreign_keys_of (c ∷ cs) = foreign_key_of c ++ foreign_keys_of cs

-- `__tablename__`
unfoldable pub tablename : Model → String
unfolding camel_to_snake
tablename m = camel_to_snake m.class_name

unfoldable pub table_of : Model → Table
unfolding tablename
table_of m = record {
  name = tablename m;
  columns = columns_of m.columns;
  foreign_keys = foreign_keys_of m.columns;
  primary_key = keys_of m.columns;
}

-- The index of `index=True`: SQLAlchemy names it after the table and the column.
abbrev column_indexes : String → List MappedColumn → List Index
column_indexes t [] = []
column_indexes t (c ∷ cs) =
    if c.index
    then record {
      name = join "ix_" (join t (join "_" c.name));
      table = t;
      columns = c.name ∷ [];
      unique = c.unique;
    }
      ∷ column_indexes t cs
    else column_indexes t cs

abbrev table_indexes : String → List (String × List String) → List Index
table_indexes t [] = []
table_indexes t (a ∷ rest) =
    record { name = a.0; table = t; columns = a.1; unique = false } ∷ table_indexes t rest

unfoldable pub indexes_of : Model → List Index
unfolding tablename
indexes_of m = table_indexes (tablename m) m.table_args ++ column_indexes (tablename m) m.columns

module _ {ℓ} {S : Type ℓ} (op : Operations S) where
  abbrev create_indexes : List Index → List (S → Option S)
  create_indexes [] = []
  create_indexes (i ∷ is) = op.create_index i ∷ create_indexes is

  -- Each class's table and then its indexes.
  unfoldable pub create_all : List Model → List (S → Option S)
  unfolding table_of indexes_of
  create_all [] = []
  create_all (m ∷ ms) =
      op.create_table (table_of m) ∷ create_indexes (indexes_of m) ++ create_all ms
