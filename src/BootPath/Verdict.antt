-- ===== src/BootPath/Verdict.antt =====
-- `main` of scripts/check_server_imports.js: the files that would be shipped, and the exit code.
use Prim.Native.Char.{code}
use dashboards_query_workben.Common.{
  ℕ, ◌+◌, ◌-◌, ◌/◌, ◌%◌, String, Bool, true, false, Option, none, some, List, [], ◌∷◌, map,
  if◌then◌else◌, is_empty, length, find, ltb, eqb,
}
use dashboards_query_workben.Common.Dict.{insert}
use dashboards_query_workben.BootPath.{
  PosixPath, Shipped, is_shipped, add, Failure, Outcome, returned, throws, out_of_fuel,
  walk_boot_path,
}

-- A file of vinyl-fs, its path relative to the plugin, with slashes.
pub record Vinyl : Type 0 where
  pub relative : String
  pub is_directory : Bool
  pub contents : String

pub record Config : Type 0 where
  pub server_source_patterns : Option (List String)
  pub build_source_patterns : Option (List String)

abbrev pub manifest_file : String
manifest_file = "opensearch_dashboards.json"

abbrev pub default_server_source_patterns : List String
default_server_source_patterns =
    "yarn.lock" ∷ "tsconfig.json" ∷ "package.json" ∷ "index.{js,ts}"
    ∷ "{lib,server,common,translations}/**/*" ∷ []

abbrev pub ignore : List String
ignore =
    "**/*.d.ts" ∷ "**/public/**" ∷ "**/__tests__/**" ∷ "**/*.{test,test.mocks,mock,mocks}.*" ∷ []

abbrev pub server_entry_candidates : List String
server_entry_candidates = "server/index.ts" ∷ "server/index.tsx" ∷ "server/index.js" ∷ []

-- `vfs.src`, with the patterns and the patterns to leave out; `none` is an error of the stream.
abbrev pub Source : Type 0
Source = List String → List String → Option (List Vinyl)

-- the handler of 'data', for one file after the other
unfoldable pub on_data : Shipped → List Vinyl → Shipped
on_data files [] = files
on_data files (file ∷ rest) =
    on_data (if file.is_directory then files else insert file.relative file.contents files) rest

unfoldable pub list_shipped_files : Source → List String → Option Shipped
unfolding on_data
list_shipped_files src patterns = elim (src (manifest_file ∷ patterns) ignore) [
  | none ↦ none
  | some files ↦ some (on_data [] files)
]

-- `none` when there is no configuration file
unfoldable pub patterns_of : Option Config → List String
patterns_of none = default_server_source_patterns
patterns_of (some config) = elim config.server_source_patterns [
  | some patterns ↦ patterns
  | none ↦ elim config.build_source_patterns [
    | some patterns ↦ patterns
    | none ↦ default_server_source_patterns
  ]
]

unfoldable pub entry_of : Shipped → Option String
entry_of shipped = find (λ candidate. is_shipped candidate shipped) server_entry_candidates

-- `target.split('/')[0]`
abbrev pub top_level : String → String
top_level String.[] = String.[]
top_level (String.◌∷◌ c s) =
    let rest = top_level s in if eqb (code c) b'/' then String.[] else String.◌∷◌ c rest

-- The UTF-16 units of a text, by which `sort` compares.
abbrev units : String → List ℕ
units String.[] = []
units (String.◌∷◌ c s) =
    if ltb (code c) 0x10000
    then code c ∷ units s
    else (0xd800 + (code c - 0x10000) / 1024) ∷ (0xdc00 + (code c - 0x10000) % 1024) ∷ units s

abbrev units_le : List ℕ → List ℕ → Bool
units_le [] ys = true
units_le (x ∷ xs) [] = false
units_le (x ∷ xs) (y ∷ ys) =
    let rest = units_le xs ys in if ltb x y then true else if eqb x y then rest else false

abbrev put : String → List String → List String
put x [] = x ∷ []
put x (y ∷ ys) =
    let rest = put x ys in if units_le (units x) (units y) then x ∷ y ∷ ys else y ∷ rest

unfoldable pub sort : List String → List String
sort [] = []
sort (x ∷ xs) = put x (sort xs)

unfoldable pub distinct : List String → List String → List String
distinct seen [] = seen
distinct seen (x ∷ xs) = distinct (add x seen) xs

unfoldable pub missing_dirs : List Failure → List String
unfolding sort distinct
missing_dirs failures = sort (distinct [] (map (λ (f : Failure). top_level f.target) failures))

-- What is printed, as far as it varies.
pub data Report : Type 0 where
  skipped no_entry crashed : Report
  complete : ℕ → ℕ → ℕ → String → Report
  incomplete : List Failure → List String → Report

unfoldable pub report_of : Shipped → String → Outcome → Report
unfolding missing_dirs
report_of shipped entry throws = crashed
report_of shipped entry out_of_fuel = crashed
report_of shipped entry (returned w) =
    if is_empty w.failures
    then complete (length shipped) (length w.visited) (length w.escapes) entry
    else incomplete w.failures (missing_dirs w.failures)

unfoldable pub exit_code : Report → ℕ
exit_code skipped = 0
exit_code (complete _ _ _ _) = 0
exit_code (incomplete _ _) = 1
exit_code no_entry = 1
exit_code crashed = 1

-- `main`, with the manifest's `server` and the configuration
unfoldable pub main : PosixPath → Source → Bool → Option Config → Report
unfolding list_shipped_files patterns_of entry_of walk_boot_path report_of
main path src false config = skipped
main path src true config = elim (list_shipped_files src (patterns_of config)) [
  | none ↦ crashed
  | some shipped ↦ elim (entry_of shipped) [
    | none ↦ no_entry
    | some entry ↦ report_of shipped entry (walk_boot_path path shipped entry)
  ]
]
