-- ===== src/Codec/RoundTrip/Codes.antt =====
-- One encoding of a value, as `write` makes it, `read` reads it and `min_wire_size` bounds it.
use wake_sol.Prelude.{ℕ, ◌*◌, ◌≤◌, ◌≡◌, String, List, ◌++◌, length}
use wake_sol.Codec.Result.{ok, Breadcrumb, index, ◌/p◌}
use wake_sol.Codec.Value.{Value, Values, Attrs, count}
use wake_sol.Codec.Node.{Node, Fields, Env}
use wake_sol.Codec.MinSize.{Stack, node_size, fields_size, class_size}
use wake_sol.Codec.Read.{read_items, read_fields, read}
use wake_sol.Codec.Write.{write_items, write_fields, write}
use wake_sol.Codec.RoundTrip.Reads.{Reads}

pub record Codes (env : Env) (levels : ℕ) (node : Node) (value : Value) : Type 0 where
  pub enc : List ℕ
  pub writes :
      (fuel : ℕ) (path : Breadcrumb) (out : List ℕ)
      → levels ≤ fuel
      → write env node fuel value path out ≡ ok (out ++ enc)
  pub reads :
      (fuel : ℕ) (path : Breadcrumb)
      → levels ≤ fuel
      → Reads levels (read env node fuel path) enc value
  pub floor : (fuel : ℕ) (stack : Stack) → node_size (class_size env fuel) node stack ≤ length enc

-- The same for the elements of a sequence, from index `i` on.
pub record ItemsCodes (env : Env) (levels : ℕ) (elem : Node) (values : Values) : Type 0 where
  pub enc : List ℕ
  pub writes :
      (fuel : ℕ) (path : Breadcrumb) (i : ℕ) (out : List ℕ)
      → levels ≤ fuel
      → write_items (λ j v. write env elem fuel v (path /p index j)) i values out ≡ ok (out ++ enc)
  pub reads :
      (fuel : ℕ) (path : Breadcrumb) (i : ℕ)
      → levels ≤ fuel
      → Reads levels
          (read_items (λ j. read env elem fuel (path /p index j)) i (count values))
          enc
          values
  pub floor :
      (fuel : ℕ) (stack : Stack)
      → count values * node_size (class_size env fuel) elem stack ≤ length enc

-- And for the fields of the instance `whole`, whose breadcrumbs are `at`.
pub record FieldsCodes (env : Env) (levels : ℕ) (whole : Value) (fields : Fields) (attrs : Attrs)
    : Type 0 where
  pub enc : List ℕ
  pub writes :
      (fuel : ℕ) (at : String → Breadcrumb) (out : List ℕ)
      → levels ≤ fuel
      → write_fields (λ k node v. write env node fuel v (at k)) fields whole out ≡ ok (out ++ enc)
  pub reads :
      (fuel : ℕ) (at : String → Breadcrumb)
      → levels ≤ fuel
      → Reads levels (read_fields (λ k node. read env node fuel (at k)) fields) enc attrs
  pub floor :
      (fuel : ℕ) (stack : Stack) → fields_size (class_size env fuel) fields stack ≤ length enc
