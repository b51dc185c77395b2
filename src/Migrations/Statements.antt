-- ===== src/Migrations/Statements.antt =====
-- The statements that alembic/versions sends, on tables with their rows: what each does to a
-- PostgreSQL catalogue, and when it is refused.
use ai_compliance_orquestrat.Json.{Fields, Json, get, field, null, text, end, put}
use ai_compliance_orquestrat.Errors.{
  Result, Error, ◌>>◌, err, ok, runtime_error, raise_if, ◌>>=◌, integrity_error,
}
use ai_compliance_orquestrat.Prelude.{
  ℕ, String, List, Option, Bool, concat, ◌==◌, true, false, ◌∷◌, map, none, ◌&&◌, ◌||◌, not,
  if◌then◌else◌, is_some, some, [], find, ◌++◌, filter,
}

pub data ColumnType : Type 0 where
  uuid integer boolean_type json_type timestamp : ColumnType
  string : ℕ → ColumnType
  -- a non-native enumeration, stored as one of these texts
  enum : List String → ColumnType

pub record Column : Type 0 where
  pub name : String
  pub type_ : ColumnType
  pub nullable : Bool
  pub server_default : Option String

pub data Constraint : Type 0 where
  primary_key : List String → Constraint
  unique : String → List String → Constraint
  foreign_key : String → String → String → Constraint

pub record Index : Type 0 where
  pub name : String
  pub columns : List String

-- A row holds its columns by name.
pub record Table : Type 0 where
  pub name : String
  pub columns : List Column
  pub constraints : List Constraint
  pub indexes : List Index
  pub rows : List Fields

abbrev pub Catalog : Type 0
Catalog = List Table

-- a statement that the database refuses
abbrev pub refused : String → Error
refused reason = runtime_error reason

unfoldable pub is_named : String → Table → Bool
is_named name t = t.name == name

unfoldable pub is_column : String → Column → Bool
is_column name c = c.name == name

unfoldable pub text_value : Option Json → String
text_value (some (text s)) = s
text_value _ = ""

-- the text in a column of a row
unfoldable pub text_of : String → Fields → String
text_of column row = text_value (get column row)

unfoldable pub same_texts : List String → Fields → Fields → Bool
same_texts [] a b = true
same_texts (c ∷ cs) a b = text_of c a == text_of c b && same_texts cs a b

unfoldable pub has_twin : List String → Fields → List Fields → Bool
unfolding same_texts
has_twin columns row [] = false
has_twin columns row (r ∷ rs) = same_texts columns row r || has_twin columns row rs

-- no two rows agree on the columns
unfoldable pub are_distinct : List String → List Fields → Bool
unfolding has_twin
are_distinct columns [] = true
are_distinct columns (r ∷ rs) = not (has_twin columns r rs) && are_distinct columns rs

-- a row without one of its columns
unfoldable pub delete : String → Fields → Fields
delete k end = end
delete k (field j v rest) = if j == k then delete k rest else field j v (delete k rest)

unfoldable pub create_table : Table → Catalog → Result Catalog
create_table t c = do
  raise_if (is_some (find (is_named t.name) c)) (refused "relation already exists")
  ok (c ++ t ∷ [])

-- the name that PostgreSQL gives a unique constraint of one column
unfoldable pub unique_name : String → String → String
unique_name table column = concat table (concat "_" (concat column "_key"))

unfoldable pub refers_to : String → Constraint → Bool
refers_to table (foreign_key column parent key) = parent == table
refers_to table _ = false

-- another table has a foreign key to it
unfoldable pub is_referenced : String → Catalog → Bool
unfolding refers_to
is_referenced table [] = false
is_referenced table (t ∷ ts) =
    (not (t.name == table) && is_some (find (refers_to table) t.constraints))
    || is_referenced table ts

unfoldable pub drop_table : String → Catalog → Result Catalog
drop_table table c = do
  raise_if (not (is_some (find (is_named table) c))) (refused "table does not exist")
  raise_if (is_referenced table c) (refused "other objects depend on it")
  ok (filter (λ t. not (is_named table t)) c)

-- a statement on one table
unfoldable pub alter : String → (Table → Result Table) → Catalog → Result Catalog
alter table f [] = err (refused "relation does not exist")
alter table f (t ∷ ts) =
    let rest = alter table f ts in
    if is_named table t then (do t' ← f t; ok (t' ∷ ts)) else (do ts' ← rest; ok (t ∷ ts'))

unfoldable pub create_index : String → List String → Table → Result Table
create_index name columns t = do
  raise_if (is_some (find (λ i. i.name == name) t.indexes)) (refused "relation already exists")
  ok (record t { indexes = t.indexes ++ record { name = name; columns = columns } ∷ [] })

unfoldable pub drop_index : String → Table → Result Table
drop_index name t = do
  raise_if (not (is_some (find (λ i. i.name == name) t.indexes))) (refused "index does not exist")
  ok (record t { indexes = filter (λ i. not (i.name == name)) t.indexes })

-- the value that a new column has in the rows that are there
unfoldable pub initial : Option String → Json
initial none = null
initial (some s) = text s

unfoldable pub has_rows : List Fields → Bool
has_rows [] = false
has_rows (r ∷ rs) = true

-- A column that is not nullable needs a default, unless there are no rows.
unfoldable pub add_column : Column → Table → Result Table
unfolding initial has_rows
add_column c t = do
  raise_if (is_some (find (is_column c.name) t.columns)) (refused "column already exists")
  raise_if (not c.nullable && (not (is_some c.server_default) && has_rows t.rows)) integrity_error
  ok (record t {
    columns = t.columns ++ c ∷ [];
    rows = map (put c.name (initial c.server_default)) t.rows;
  })

unfoldable pub drop_column : String → Table → Result Table
drop_column name t = do
  raise_if (not (is_some (find (is_column name) t.columns))) (refused "column does not exist")
  ok (record t {
    columns = filter (λ c. not (is_column name c)) t.columns;
    rows = map (delete name) t.rows;
  })

unfoldable pub alter_default : String → Option String → Table → Result Table
alter_default name default t = ok (record t {
  columns =
      map (λ c. if is_column name c then record c { server_default = default } else c) t.columns;
})

unfoldable pub is_unique_named : String → Constraint → Bool
is_unique_named name (unique n columns) = n == name
is_unique_named name _ = false

unfoldable pub drop_constraint : String → Table → Result Table
unfolding is_unique_named
drop_constraint name t = do
  raise_if (not (is_some (find (is_unique_named name) t.constraints)))
      (refused "constraint does not exist")
  ok (record t { constraints = filter (λ c. not (is_unique_named name c)) t.constraints })

-- A unique constraint is refused if two rows violate it.
unfoldable pub create_unique_constraint : String → List String → Table → Result Table
create_unique_constraint name columns t = do
  raise_if (not (are_distinct columns t.rows)) integrity_error
  ok (record t { constraints = t.constraints ++ unique name columns ∷ [] })
