-- ===== src/ResultsBody/Tests.antt =====
-- Concrete rows, cells and downloads.
use Prim.Native.Nat.{min}
use dashboards_query_workben.Common.{
  ℕ, ◌+◌, ◌-◌, ◌*◌, String, true, false, none, List, [], ◌∷◌, ◌≡◌, refl, arith, length,
}
use dashboards_query_workben.Common.Numbers.{show_nat, show_digits}
use dashboards_query_workben.ResultsBody.{
  rows_from, render_rows, get_field_value, array_of_objects, BodyProps, on_download_csv,
  on_download_jdbc,
}
use dashboards_query_workben.ResultsBody.Pages.{PagerLaws, pages_from, pages_are_the_records}

abbrev rows : List String
rows = "a" ∷ "b" ∷ "c" ∷ []

abbrev first_index : ℕ → ℕ
first_index page = page * 2

abbrev last_index : ℕ → ℕ
last_index page = min (page * 2 + 2) 3 - 1

pager-PagerLaws : PagerLaws 2 (length rows) first_index last_index
pager-PagerLaws = record { first_is = λ page. refl; last_is = λ page. omega arith }

pages_are_the_records_example : pages_from first_index last_index rows 2 0 ≡ rows
pages_are_the_records_example =
    pages_are_the_records 2 first_index last_index rows pager-PagerLaws 2 (omega arith)

second_page : render_rows 2 2 rows ≡ "c" ∷ []
unfolding render_rows rows_from
second_page = refl

link_of_objects : (get_field_value (array_of_objects 12) "tags").link ≡ "tags: {12}"
unfolding get_field_value show_nat show_digits
link_of_objects = refl

abbrev ppl : BodyProps
ppl = record {
  language = "PPL";
  query_results_jdbc = none;
  query_results_csv = none;
  query_results_json = none;
  query_results_text = none;
}

ppl_downloads :
    ((on_download_csv ppl).sets_timer ≡ false) × ((on_download_jdbc ppl).requests ≡ true)
unfolding on_download_csv on_download_jdbc
ppl_downloads = (refl, refl)
