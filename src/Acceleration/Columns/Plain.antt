-- ===== src/Acceleration/Columns/Plain.antt =====
-- visual_editors/query_builder.tsx: the parts of a statement that are written without backquotes.
use text.Mathlib.TextLemmas.{nil-append, cons-append}
use dashboards_query_workben.Common.{
  ℕ, zero, suc, String, Bool, true, false, Option, none, some, List, [], ◌∷◌, ◌≡◌, refl, arith,
  ◌&&◌, ◌/◌, ◌%◌, ltb, if◌then◌else◌, every, ◌⧺◌, join, All, get_elem?, get_or, Bool-cases, inl,
  inr, All-append,
}
use dashboards_query_workben.Common.Numbers.{
  Number, nan, int, pos, negsuc, digit, digit_texts, show_digits, show, greater,
}
use dashboards_query_workben.Capabilities.{truthy}
use dashboards_query_workben.Acceleration.Types.{CreateAccelerationForm}
use dashboards_query_workben.Acceleration.Validate.{is_manual, is_materialized, pluralize_time}
use dashboards_query_workben.Acceleration.Query.{
  settings_option, auto_refresh_option, interval_option, watermark_option, checkpoint_option,
  table_name, is_interval, index_options, build_index_options,
}
use dashboards_query_workben.Acceleration.Columns.{no_tick}

-- A text without backquotes.
abbrev pub IsPlain : String → Type 0
IsPlain s = no_tick s ≡ true

every-append : (p : ℕ → Bool) (s t : String) → every p (s ⧺ t) ≡ (every p s && every p t)
every-append p String.[] t = rw nil-append
every-append p (String.◌∷◌ c s) t = rw cons-append (ground (arith, every-append p s t))

pub append-IsPlain : (s t : String) → IsPlain s → IsPlain t → IsPlain (s ⧺ t)
append-IsPlain s t h k = rw (every-append _ s t, h) k

pub join-IsPlain :
    (sep : String) (xs : List String) → IsPlain sep → All IsPlain xs → IsPlain (join sep xs)
unfolding join
join-IsPlain sep [] h _ = refl
join-IsPlain sep (x ∷ []) h (k, _) = k
join-IsPlain sep (x ∷ y ∷ ys) h (k, ks) =
    append-IsPlain x _ k (append-IsPlain sep _ h (join-IsPlain sep (y ∷ ys) h ks))

pick-IsPlain : (xs : List String) (i : ℕ) → All IsPlain xs → IsPlain (get_or (get_elem? xs i) "")
pick-IsPlain [] i h = refl
pick-IsPlain (x ∷ xs) zero (h, _) = h
pick-IsPlain (x ∷ xs) (suc i) (_, h) = pick-IsPlain xs i h

digit-IsPlain : (d : ℕ) → IsPlain (digit d)
digit-IsPlain d =
    pick-IsPlain digit_texts d
      (refl, (refl, (refl, (refl, (refl, (refl, (refl, (refl, (refl, (refl, tt))))))))))

show_digits-IsPlain : (fuel n : ℕ) → IsPlain (show_digits fuel n)
unfolding show_digits
show_digits-IsPlain zero n = refl
show_digits-IsPlain (suc fuel) n = elim (Bool-cases (ltb n 10)) [
  | inl small ↦ rw small (digit-IsPlain n)
  | inr large ↦ rw large (
      append-IsPlain (show_digits fuel (n / 10)) (digit (n % 10))
        (show_digits-IsPlain fuel (n / 10)) (digit-IsPlain (n % 10)))
]

pub show-IsPlain : (n : Number) → IsPlain (show n)
unfolding show
show-IsPlain nan = refl
show-IsPlain (int (pos n)) = show_digits-IsPlain (suc n) n
show-IsPlain (int (negsuc n)) =
    append-IsPlain "-" (show_digits (suc (suc n)) (suc n)) refl
      (show_digits-IsPlain (suc (suc n)) (suc n))

choose-IsPlain : (b : Bool) (s t : String) → IsPlain s → IsPlain t → IsPlain (if b then s else t)
choose-IsPlain true s t h k = h
choose-IsPlain false s t h k = k

pub pluralize_time-IsPlain : (n : Number) → IsPlain (pluralize_time n)
unfolding pluralize_time
pluralize_time-IsPlain n = choose-IsPlain (greater n 1) "s" "" refl refl

-- A template's parts, one after the other.
abbrev pub parts : String → List String → String
parts s [] = s
parts s (t ∷ ts) = s ⧺ parts t ts

pub parts-IsPlain :
    (s : String) (ts : List String) → IsPlain s → All IsPlain ts → IsPlain (parts s ts)
parts-IsPlain s [] h _ = h
parts-IsPlain s (t ∷ ts) h (k, ks) = append-IsPlain s (parts t ts) h (parts-IsPlain t ts k ks)

abbrev pub PlainOption : Option String → Type 0
PlainOption none = Unit
PlainOption (some s) = IsPlain s

-- What the form puts into a statement outside its columns.
pub record IsPlainForm (f : CreateAccelerationForm) : Type 0 where
  pub data_source : IsPlain f.data_source
  pub database : IsPlain f.database
  pub data_table : IsPlain f.data_table
  pub index_name : IsPlain f.acceleration_index_name
  pub refresh_unit : IsPlain f.refresh_interval_options.refresh_interval
  pub delay_unit : IsPlain f.watermark_delay.delay_interval
  pub checkpoint_location : PlainOption (truthy f.checkpoint_location)

checkpoint-IsPlain : (l : Option String) → PlainOption l → All IsPlain (checkpoint_option l)
checkpoint-IsPlain none h = tt
checkpoint-IsPlain (some l) h =
    (parts-IsPlain "checkpoint_location = '" (l ∷ "'" ∷ []) refl (h, (refl, tt)), tt)

choose-All :
    (b : Bool) (xs ys : List String)
    → All IsPlain xs
    → All IsPlain ys
    → All IsPlain (if b then xs else ys)
choose-All true xs ys h k = h
choose-All false xs ys h k = k

module _ (f : CreateAccelerationForm) (plain : IsPlainForm f) where
  settings-IsPlain : IsPlain (settings_option f)
  settings-IsPlain =
      parts-IsPlain "index_settings = '{\"number_of_shards\":"
        (show f.primary_shards_count
          ∷ ",\"number_of_replicas\":"
          ∷ show f.replica_shards_count
          ∷ "}'"
          ∷ [])
        refl
        (
          show-IsPlain f.primary_shards_count,
          (refl, (show-IsPlain f.replica_shards_count, (refl, tt))),
        )

  auto_refresh-IsPlain : IsPlain (auto_refresh_option f)
  auto_refresh-IsPlain =
      append-IsPlain "auto_refresh = " (if is_manual f.refresh_type then "false" else "true") refl
        (choose-IsPlain (is_manual f.refresh_type) "false" "true" refl refl)

  interval-IsPlain : IsPlain (interval_option f)
  interval-IsPlain =
      let o = f.refresh_interval_options in
      parts-IsPlain "refresh_interval = '"
        (show o.refresh_window
          ∷ " "
          ∷ o.refresh_interval
          ∷ pluralize_time o.refresh_window
          ∷ "'"
          ∷ [])
        refl
        (
          show-IsPlain o.refresh_window,
          (refl, (plain.refresh_unit, (pluralize_time-IsPlain o.refresh_window, (refl, tt)))),
        )

  watermark-IsPlain : IsPlain (watermark_option f)
  watermark-IsPlain =
      let o = f.watermark_delay in
      parts-IsPlain "watermark_delay = '"
        (show o.delay_window ∷ " " ∷ o.delay_interval ∷ pluralize_time o.delay_window ∷ "'" ∷ [])
        refl
        (
          show-IsPlain o.delay_window,
          (refl, (plain.delay_unit, (pluralize_time-IsPlain o.delay_window, (refl, tt)))),
        )

  index_options-IsPlain : All IsPlain (index_options f)
  unfolding index_options
  index_options-IsPlain =
      let refresh =
        choose-All (is_interval f.refresh_type) (interval_option f ∷ []) [] (interval-IsPlain, tt)
          tt in
      let watermark =
        choose-All (is_materialized f.acceleration_index_type) (watermark_option f ∷ []) []
          (watermark-IsPlain, tt) tt in
      let checkpoint =
        choose-All (is_manual f.refresh_type) [] (checkpoint_option (truthy f.checkpoint_location))
          tt (checkpoint-IsPlain (truthy f.checkpoint_location) plain.checkpoint_location) in
      (
        settings-IsPlain,
        (
          auto_refresh-IsPlain,
          All-append IsPlain _ _ refresh (All-append IsPlain _ _ watermark checkpoint),
        ),
      )

  pub build_index_options-IsPlain : IsPlain (build_index_options f)
  unfolding build_index_options
  build_index_options-IsPlain =
      parts-IsPlain "WITH (\n" (join ",\n" (index_options f) ∷ "\n)" ∷ []) refl
        (join-IsPlain ",\n" (index_options f) refl index_options-IsPlain, (refl, tt))

  pub table_name-IsPlain : IsPlain (table_name f)
  table_name-IsPlain =
      parts-IsPlain f.data_source ("." ∷ f.database ∷ "." ∷ f.data_table ∷ []) plain.data_source
        (refl, (plain.database, (refl, (plain.data_table, tt))))
