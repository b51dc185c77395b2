-- ===== src/Migrations/Compare.antt =====
-- Catalogues compared as schemas: by the names of tables and columns, in any order, without rows.
use ai_compliance_orquestrat.Migrations.Statements.{
  Table, ColumnType, Catalog, Column, Constraint, Index, enum, timestamp, uuid, string, json_type,
  boolean_type, integer, primary_key, foreign_key, unique,
}
use ai_compliance_orquestrat.Prelude.{
  String, List, Option, Bool, false, true, ◌∷◌, none, some, [], find, eqb, ◌==◌, ◌&&◌, not, is_some,
}

unfoldable pub same_names : List String → List String → Bool
same_names [] [] = true
same_names (a ∷ xs) (b ∷ ys) = a == b && same_names xs ys
same_names _ _ = false

unfoldable pub same_type : ColumnType → ColumnType → Bool
unfolding same_names
same_type uuid uuid = true
same_type integer integer = true
same_type boolean_type boolean_type = true
same_type json_type json_type = true
same_type timestamp timestamp = true
same_type (string m) (string n) = eqb m n
same_type (enum a) (enum b) = same_names a b
same_type _ _ = false

unfoldable pub same_default : Option String → Option String → Bool
same_default none none = true
same_default (some a) (some b) = a == b
same_default _ _ = false

unfoldable pub same_bool : Bool → Bool → Bool
same_bool true b = b
same_bool false b = not b

unfoldable pub same_column : Column → Column → Bool
unfolding same_type same_default same_bool
same_column a b =
    a.name == b.name
    && same_type a.type_ b.type_
    && same_bool a.nullable b.nullable
    && same_default a.server_default b.server_default

unfoldable pub same_constraint : Constraint → Constraint → Bool
unfolding same_names
same_constraint (primary_key a) (primary_key b) = same_names a b
same_constraint (unique m a) (unique n b) = m == n && same_names a b
same_constraint (foreign_key a p k) (foreign_key b q l) = a == b && p == q && k == l
same_constraint _ _ = false

unfoldable pub same_index : Index → Index → Bool
unfolding same_names
same_index a b = a.name == b.name && same_names a.columns b.columns

-- each of the first list is in the second
unfoldable pub are_included {ℓ} : {A : Type ℓ} → (A → A → Bool) → List A → List A → Bool
are_included same [] ys = true
are_included same (a ∷ xs) ys = is_some (find (same a) ys) && are_included same xs ys

unfoldable pub are_same {ℓ} : {A : Type ℓ} → (A → A → Bool) → List A → List A → Bool
unfolding are_included
are_same same xs ys = are_included same xs ys && are_included same ys xs

unfoldable pub same_table : Table → Table → Bool
unfolding are_same same_column same_constraint same_index
same_table t u =
    t.name == u.name
    && are_same same_column t.columns u.columns
    && are_same same_constraint t.constraints u.constraints
    && are_same same_index t.indexes u.indexes

unfoldable pub same_schema : Catalog → Catalog → Bool
unfolding are_same same_table
same_schema c d = are_same same_table c d
