-- ===== src/Manager/Database/Injection.antt =====
-- A value with a quote in the SQL text of a SELECT.
use text.Mathlib.TextLemmas.{append_assoc}
use versatile.Base.{String, ◌<>◌, ◌≡◌, sym}
use versatile.Py.Value.{str, field, end}
use versatile.Py.Text.{to_str}
use versatile.World.{World}
use versatile.Manager.Database.{select_columns}

quote_and : (s : String) → "'" <> (" and " <> s) ≡ "' and " <> s
quote_and s = sym (append_assoc "'" " and " s)

module _ (W : World) where
  -- A lookup of one column whose value holds a quote has the text of a lookup of two columns.
  pub select_injection :
      (query column value other rest : String)
      → select_columns W 0
          (field column (str (value <> "' and " <> other <> " = '" <> rest)) end)
          query
        ≡ select_columns W 0 (field column (str value) (field other (str rest) end)) query
  unfolding select_columns to_str
  select_injection query column value other rest = simp (append_assoc, quote_and)
