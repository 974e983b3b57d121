-- ===== src/Tabs/Tests.antt =====
-- Concrete results and their tabs.
use dashboards_query_workben.Common.{String, true, false, none, some, List, [], ◌∷◌, ◌≡◌, refl, ◌↔◌}
use dashboards_query_workben.Common.Numbers.{show_nat}
use dashboards_query_workben.Results.{ResponseDetail}
use dashboards_query_workben.Tabs.{
  QueryMessage, render_tabs, get_query_index, split_on, get_selected_results, get_message_string,
  capitalize_first_letter,
}
use dashboards_query_workben.Tabs.Offered.{has_tab, Fulfilled, has_tab-render_tabs_iff}

abbrev same_text : String → String
same_text s = s

abbrev queries : List String
queries = "select * from flights limit 1" ∷ "select 1" ∷ []

abbrev results : List (ResponseDetail String)
results =
    record { fulfilled = false; error_message = some "Bad Request"; contents = none }
    ∷ record { fulfilled = true; error_message = none; contents = some "1" }
    ∷ []

has_tab-render_tabs_iff_example :
    (has_tab (show_nat 1) (render_tabs same_text "SQL" queries results) ≡ true)
    ↔ Fulfilled results 1
has_tab-render_tabs_iff_example = has_tab-render_tabs_iff same_text "SQL" queries results 1

index_of_select : get_query_index same_text (some "select * from flights limit 1") ≡ some "flights"
unfolding get_query_index split_on
index_of_select = refl

-- nothing follows the keyword
index_of_nothing : get_query_index same_text (some "select 1 from") ≡ none
unfolding get_query_index split_on
index_of_nothing = refl

selected_second : get_selected_results results "1" ≡ some "1"
unfolding get_selected_results
selected_second = refl

messages : List QueryMessage
messages =
    record { text = some "Bad Request"; class_name = "error-message" }
    ∷ record { text = some "Success"; class_name = "successful-message" }
    ∷ []

message_text :
    get_message_string same_text messages (some "flights" ∷ none ∷ [])
    ≡ "flights: Bad Request\n\nundefined: Success\n\n"
unfolding get_message_string capitalize_first_letter messages
message_text = refl
