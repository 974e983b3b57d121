-- ===== src/Results/Aligned.antt =====
-- getQueryResultsForTable of public/components/Main/main.tsx: the results as a list.
use dashboards_query_workben.Capabilities.{truthy}
use dashboards_query_workben.Common.{
  ap, All2, get_or, ◌⧺◌, is_blank, if◌then◌else◌, String, Bool, true, false, Option, none, some,
  List, [], ◌∷◌, map, ◌≡◌, ◌⊎◌, inl, inr, refl, arith, All, sym, Bool-cases,
}
use dashboards_query_workben.Results.{
  Cell, Column, QueryResponse, ResponseBody, ResponseDetail, QueryResult, response_of,
  result_for_table, get_query_results_for_table, table_of, error_query_response, text, object,
  body_text,
}

module _ {J : Type 0} (json_parse : String → Option (QueryResponse J)) (object_text : String) where
  -- A response that failed, or whose data can be read and has a schema and rows.
  unfoldable pub IsReadable : Bool → ResponseDetail (ResponseBody J) → Type 0
  IsReadable json_parse_data detail =
      (detail.fulfilled ≡ false)
      ⊎ ((schema : List Column) × (rows : List (List (Cell J))) × (response_of json_parse
              object_text json_parse_data detail.contents
            ≡ some (record { schema = some schema; datarows = some rows })))

  -- The message of an error, and the text of the data that came with it.
  abbrev pub message_of : Option String → String
  message_of none = "Unknown error"
  message_of (some String.[]) = "Unknown error"
  message_of (some (String.◌∷◌ c rest)) = String.◌∷◌ c rest

  abbrev pub message_with : String → Option (ResponseBody J) → String
  message_with message none = message
  message_with message (some (text String.[])) = message
  message_with message (some (text (String.◌∷◌ c rest))) = message ⧺ "\n\n" ⧺ String.◌∷◌ c rest
  message_with message (some (object r)) =
      if is_blank object_text then message else message ⧺ "\n\n" ⧺ object_text

  message_of_lem :
      (given : Option String) → get_or (truthy given) "Unknown error" ≡ message_of given
  message_of_lem none = refl
  message_of_lem (some String.[]) = refl
  message_of_lem (some (String.◌∷◌ c rest)) = refl

  error_query_response_lem :
      (detail : ResponseDetail (ResponseBody J))
      → error_query_response json_parse object_text detail
        ≡ message_with (message_of detail.error_message) detail.contents
  unfolding error_query_response
  error_query_response_lem detail =
      rw (sym (message_of_lem detail.error_message))
        (by_contents (get_or (truthy detail.error_message) "Unknown error") detail.contents)
    where
      by_contents :
          (message : String) (contents : Option (ResponseBody J))
          → (elim contents [
            | none ↦ message
            | some body ↦
                if is_blank (body_text json_parse object_text body)
                then message
                else message ⧺ "\n\n" ⧺ body_text json_parse object_text body
          ])
            ≡ message_with message contents
      by_contents message none = refl
      by_contents message (some (text String.[])) = refl
      by_contents message (some (text (String.◌∷◌ c rest))) = refl
      by_contents message (some (object r)) = refl

  -- What a response becomes: a failed one its message, another the table of its schema and rows.
  abbrev pub IsResultOf :
      Bool → ResponseDetail (ResponseBody J) → ResponseDetail (QueryResult J) → Type 0
  IsResultOf json_parse_data detail r =
      ((detail.fulfilled ≡ false)
        × (r.fulfilled ≡ false)
        × (r.error_message ≡ some (message_with (message_of detail.error_message) detail.contents))
        × (r.contents ≡ none))
      ⊎ ((detail.fulfilled ≡ true)
          × (r.fulfilled ≡ true)
          × ((schema : List Column) × (rows : List (List (Cell J))) × (response_of json_parse
                  object_text json_parse_data detail.contents
                ≡ some (record { schema = some schema; datarows = some rows }))
              × (r.contents ≡ some (table_of schema rows))))

  failed-some :
      (json_parse_data : Bool) (detail : ResponseDetail (ResponseBody J))
      → detail.fulfilled ≡ false
      → (r : ResponseDetail (QueryResult J)) × (result_for_table json_parse object_text
            json_parse_data detail
          ≡ some r)
        × IsResultOf json_parse_data detail r
  unfolding result_for_table
  failed-some json_parse_data detail failed = (
    record {
      fulfilled = false;
      error_message = some (error_query_response json_parse object_text detail);
      contents = none;
    },
    rw (failed, result_for_table) refl,
    inl (failed, refl, ap some (error_query_response_lem detail), refl),
  )

  result_for_table-some :
      (json_parse_data : Bool) (detail : ResponseDetail (ResponseBody J))
      → IsReadable json_parse_data detail
      → (r : ResponseDetail (QueryResult J)) × (result_for_table json_parse object_text
            json_parse_data detail
          ≡ some r)
        × IsResultOf json_parse_data detail r
  unfolding result_for_table IsReadable
  result_for_table-some json_parse_data detail (inl failed) =
      failed-some json_parse_data detail failed
  result_for_table-some json_parse_data detail (inr (schema, rows, read)) =
      elim (Bool-cases detail.fulfilled) [
        | inl done ↦ (
          record { fulfilled = true; error_message = none; contents = some (table_of schema rows) },
          ground arith,
          inr (done, refl, (schema, rows, read, refl)),
        )
        | inr failed ↦ failed-some json_parse_data detail failed
      ]

  -- If each response has failed or can be read, then there is one result for each response, in their order: for one
  -- that failed its message and no table, for another the table of its schema and rows.
  pub results_are_aligned :
      (json_parse_data : Bool) (details : List (ResponseDetail (ResponseBody J)))
      → All (IsReadable json_parse_data) details
      → (rs : List (ResponseDetail (QueryResult J))) × (get_query_results_for_table json_parse
            object_text details json_parse_data
          ≡ some rs)
        × All2 (IsResultOf json_parse_data) details rs
  unfolding get_query_results_for_table
  results_are_aligned json_parse_data [] h = ([], refl, tt)
  results_are_aligned json_parse_data (d ∷ ds) (h, hs) =
      let (r, made, same) = result_for_table-some json_parse_data d h in
      let (rs, all_made, all_same) = results_are_aligned json_parse_data ds hs in
      (r ∷ rs, rw (made, all_made, get_query_results_for_table) refl, (same, all_same))

  -- The same ones are fulfilled.
  pub All2-fulfilled :
      (json_parse_data : Bool) (details : List (ResponseDetail (ResponseBody J)))
      (rs : List (ResponseDetail (QueryResult J)))
      → All2 (IsResultOf json_parse_data) details rs
      → map (λ r. r.fulfilled) rs ≡ map (λ d. d.fulfilled) details
  All2-fulfilled json_parse_data [] [] h = refl
  All2-fulfilled json_parse_data [] (r ∷ rs) h = absurd h
  All2-fulfilled json_parse_data (d ∷ ds) [] h = absurd h
  All2-fulfilled json_parse_data (d ∷ ds) (r ∷ rs) (inl (failed, shown, said, empty), h) =
      rw (failed, shown) (ap (◌∷◌ false) (All2-fulfilled json_parse_data ds rs h))
  All2-fulfilled json_parse_data (d ∷ ds) (r ∷ rs) (inr (done, shown, read), h) =
      rw (done, shown) (ap (◌∷◌ true) (All2-fulfilled json_parse_data ds rs h))
