-- ===== src/Main/Replies.antt =====
-- public/components/Main/main.tsx: what is made of the server's responses.
use dashboards_query_workben.Common.{
  String, Bool, true, false, Option, none, some, List, map, if◌then◌else◌, ◌==◌, is_blank,
}
use dashboards_query_workben.Capabilities.{truthy}
use dashboards_query_workben.Results.{ResponseBody, text, object, ResponseDetail, QueryResult}
use dashboards_query_workben.Tabs.{QueryMessage}

-- `ResponseData`
pub record ResponseData (J : Type 0) : Type 0 where
  pub ok : Bool
  pub resp : ResponseBody J
  pub body : Option String

abbrev pub no_response : {T : Type 0} → Option T → ResponseDetail T
no_response contents = record {
  fulfilled = false;
  error_message = some "no response";
  contents = contents;
}

module _ {J : Type 0} (object_text : String) where
  -- an error message is kept as its text
  abbrev pub error_text : ResponseBody J → String
  error_text (text s) = s
  error_text (object r) = object_text

  abbrev pub is_unparsed : ResponseBody J → Bool
  is_unparsed (text s) = s == "Unable to parse/serialize body"
  is_unparsed (object r) = false

  unfoldable pub process_translate_response :
      Option (ResponseData J) → ResponseDetail (ResponseBody J)
  process_translate_response none = no_response none
  process_translate_response (some r) =
      if r.ok
      then record { fulfilled = true; error_message = none; contents = some r.resp }
      else record { fulfilled = false; error_message = some (error_text r.resp); contents = none }

  -- a response that is not ok
  abbrev pub process_failure : ResponseData J → ResponseDetail (ResponseBody J)
  process_failure r =
      let failure : ResponseDetail (ResponseBody J) = record {
        fulfilled = false;
        error_message = some (error_text r.resp);
        contents = some (text "");
      } in
      elim (truthy r.body) [
        | none ↦ failure
        | some body ↦
            if is_unparsed r.resp
            then record {
              fulfilled = true;
              error_message = some (error_text r.resp);
              contents = some (text body);
            }
            else failure
      ]

  unfoldable pub process_query_response : Option (ResponseData J) → ResponseDetail (ResponseBody J)
  process_query_response none = no_response (some (text ""))
  process_query_response (some r) =
      if r.ok
      then record { fulfilled = true; error_message = none; contents = some r.resp }
      else process_failure r

abbrev pub class_name_of : Bool → String
class_name_of fulfilled = if fulfilled then "successful-message" else "error-message"

module _ {J : Type 0} where
  unfoldable pub get_message : List (ResponseDetail (QueryResult J)) → List QueryMessage
  get_message query_results_for_table =
      map
        (λ r. record {
          text =
              if r.fulfilled
              then (elim r.contents [ none ↦ r.error_message | some result ↦ some result.message ])
              else r.error_message;
          class_name = class_name_of r.fulfilled;
        })
        query_results_for_table

  abbrev pub is_truthy : Option (ResponseBody J) → Bool
  is_truthy none = false
  is_truthy (some (text s)) = if is_blank s then false else true
  is_truthy (some (object r)) = true

  unfoldable pub get_translate_message : List (ResponseDetail (ResponseBody J)) → List QueryMessage
  get_translate_message translation_result =
      map
        (λ t. record {
          text = if is_truthy t.contents then some "Success" else t.error_message;
          class_name = class_name_of t.fulfilled;
        })
        translation_result
