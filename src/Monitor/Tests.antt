-- ===== src/Monitor/Tests.antt =====
-- The Monitor service at a table of two rows.
use localaz.Common.{
  Bytes, codes, ℕ, true, false, List, [], ◌∷◌, ◌++◌, none, some, keep, bytes_eq, has_prefix, ◌==◌,
  ltb, leb, ok, inl, if◌then◌else◌, ◌≡◌, refl,
}
use mathlib.Core.List.{Permᴰ}
use localaz.Common.Dict.{or_empty, lookup}
use localaz.Common.Strings.{split, trim_suffix_byte}
use localaz.Common.Stable.{IsOrdered}
use localaz.Filter.Compare.{Floats}
use localaz.Monitor.Values.{string, Row, at, Library, text}
use localaz.Monitor.Store.{Tables, ingest, rows_of}
use localaz.Monitor.Predicate.{Comparison, parse_predicate}
use localaz.Monitor.Kql.{ResultTable, apply_sort, apply_where}
use localaz.Monitor.Server.{Request, raw, Outside, serve_monitor}
use localaz.Monitor.Ingested.{AllStamped, AllStored, rows_of-ingest, serve_monitor-AllStamped}
use localaz.Monitor.Queries.{column_less, apply_sort-IsOrdered}
use localaz.Monitor.Where.{satisfies, is_supported, apply_where-keep}

abbrev no_floats : Floats
no_floats = record {
  Float = ℕ;
  parse_float = λ s. none;
  float_eq = λ a b. a == b;
  float_lt = λ a b. ltb a b;
  float_le = λ a b. leb a b;
}

-- the texts between single spaces
abbrev words : Bytes → List Bytes
words s = let (first, rest) = split 32 s in first ∷ rest

-- no blanks around a text, and nothing in upper case
abbrev same : Bytes → Bytes
same s = s

-- a column's name before an operator
abbrev trim_right : Bytes → Bytes
trim_right s = trim_suffix_byte 32 s

abbrev trim_left : Bytes → Bytes
trim_left [] = []
trim_left (c ∷ s) = if c == 32 then s else c ∷ s

abbrev library : Library
library = record {
  floats = no_floats;
  of_int = λ n. 0;
  is_integral = λ f. true;
  trim = λ s. trim_left (trim_right s);
  fields = words;
  lower = same;
  equal_fold = λ a b. bytes_eq a b;
  atoi = λ s. none;
  is_rfc3339 = λ s. false;
}

abbrev first_row : Row ℕ
first_row = (codes "Msg", string (codes "b")) ∷ []

abbrev second_row : Row ℕ
second_row = (codes "Msg", string (codes "a")) ∷ []

abbrev outside : Outside ℕ
outside = record {
  gunzip = λ s. none;
  unmarshal_records = λ s. some (some first_row ∷ some second_row ∷ []);
  unmarshal_query = λ s. some s;
  now = codes "now";
  error_text = λ e. [];
}

abbrev empty : Tables ℕ
empty = []

abbrev upload : Request
upload = record {
  verb = codes "POST";
  path = codes "/dataCollectionRules/r/streams/Custom-Logs";
  encoding = [];
  body = raw [];
}

abbrev results : ResultTable ℕ
results = record { columns = []; rows = first_row ∷ second_row ∷ [] }

empty-AllStamped : AllStamped empty
unfolding rows_of lookup
empty-AllStamped m = tt

rows_of-ingest_example :
    (new : List (Row ℕ)) × (or_empty (
        rows_of
          (codes "Logs")
          (ingest (codes "now") (codes "Custom-Logs") (some first_row ∷ none ∷ []) empty))
      ≡ (if bytes_eq (codes "Logs") (codes "Logs")
          then or_empty (rows_of (codes "Logs") empty) ++ new
          else or_empty (rows_of (codes "Logs") empty)))
    × AllStored (codes "now") (some first_row ∷ none ∷ []) new
rows_of-ingest_example =
    rows_of-ingest (codes "now") (codes "Custom-Logs") (codes "Logs") (codes "Logs")
      (some first_row ∷ none ∷ []) empty (inl refl)

serve_monitor-AllStamped_example : AllStamped (serve_monitor library outside upload empty).0
serve_monitor-AllStamped_example =
    serve_monitor-AllStamped library outside upload empty empty-AllStamped

apply_sort-IsOrdered_example :
    (after : ResultTable ℕ) × (apply_sort library results
        (codes "sort" ∷ codes "by" ∷ codes "Msg" ∷ codes "asc" ∷ [])
      ≡ ok after)
    × Permᴰ after.rows results.rows
    × IsOrdered (column_less library (trim_suffix_byte 44 (codes "Msg")) false) after.rows
unfolding bytes_eq trim_suffix_byte at lookup
apply_sort-IsOrdered_example =
    apply_sort-IsOrdered library results (codes "sort") (codes "by") (codes "Msg")
      (codes "asc" ∷ []) false refl refl ((codes "b", refl), ((codes "a", refl), tt))

abbrev is_b : Comparison ℕ
is_b = record { column = codes "Msg"; op = codes "=="; lit = text (codes "b") }

apply_where-keep_example :
    apply_where library results (codes "Msg == 'b'")
    ≡ ok (record results { rows = keep (satisfies library ((is_b ∷ []) ∷ [])) results.rows })
unfolding parse_predicate trim_suffix_byte bytes_eq split has_prefix is_supported
apply_where-keep_example =
    apply_where-keep library results (codes "Msg == 'b'") ((is_b ∷ []) ∷ []) refl ((refl, tt), tt)
