-- ===== src/BootPath.antt =====
-- scripts/check_server_imports.js: the walk over the imports that the server makes when it starts, and the verdict
-- on the files that would be shipped. Node's `path.posix` and the library vinyl-fs are parameters.
pub mod Specifiers
pub mod Hops
pub mod Round
pub mod Reached
pub mod Verdict
pub mod Boots
mod Tests
use dashboards_query_workben.Common.{
  ℕ, zero, suc, String, Bool, true, false, not, Option, none, some, List, [], ◌∷◌, ◌++◌, map,
  if◌then◌else◌, ◌==◌, ◌⧺◌, is_blank, is_empty, length, filter, any, find, head?,
}
use dashboards_query_workben.Common.Dict.{lookup, insert}
use dashboards_query_workben.Common.Search.{starts_with}
use dashboards_query_workben.BootPath.Specifiers.{specifiers}

-- `Path.posix`
pub record PosixPath : Type 0 where
  pub dirname : String → String
  pub join : String → String → String

-- The files that would be shipped, by their path in the artifact, with their contents.
abbrev pub Shipped : Type 0
Shipped = List (String × String)

abbrev pub is_shipped : String → Shipped → Bool
is_shipped path shipped = any (λ file. file.0 == path) shipped

abbrev pub has : String → List String → Bool
has x xs = any (λ y. y == x) xs

-- `set.add(x)`
abbrev pub add : String → List String → List String
add x xs = if has x xs then xs else xs ++ (x ∷ [])

pub record Failure : Type 0 where
  pub file : String
  pub specifier : String
  pub target : String

-- The variables of the walk; the sets are in the order of insertion.
pub record Walk : Type 0 where
  pub visited : List String
  pub queue : List String
  pub failures : List Failure
  pub escapes : List String

abbrev pub resolve_exts : List String
resolve_exts = "" ∷ ".ts" ∷ ".tsx" ∷ ".js" ∷ ".jsx" ∷ ".json" ∷ []

-- the two loops of `resolveWithin`, on the files that they try
abbrev pub plain_candidates : String → List String
plain_candidates target = map (λ ext. target ⧺ ext) resolve_exts

abbrev pub index_candidates : String → List String
index_candidates target =
    map (λ ext. target ⧺ "/index" ⧺ ext) (filter (λ ext. not (is_blank ext)) resolve_exts)

unfoldable pub resolve_within : Shipped → String → Option String
resolve_within shipped target = elim (find (λ c. is_shipped c shipped) (plain_candidates target)) [
  | some file ↦ some file
  | none ↦ find (λ c. is_shipped c shipped) (index_candidates target)
]

-- Where one import leads.
pub data Hop : Type 0 where
  escapes : Hop
  missing : String → Hop
  to : String → Hop

-- How the walk ends: `throws` when a file of the queue has no contents.
pub data Outcome : Type 0 where
  returned : Walk → Outcome
  throws out_of_fuel : Outcome

module _ (path : PosixPath) (shipped : Shipped) where
  abbrev pub target_of : String → String → String
  target_of file specifier = path.join (path.dirname file) specifier

  unfoldable pub hop : String → String → Hop
  unfolding resolve_within
  hop file specifier =
      if starts_with ".." (target_of file specifier)
      then escapes
      else elim (resolve_within shipped (target_of file specifier)) [
        | none ↦ missing (target_of file specifier)
        | some resolved ↦ to resolved
      ]

  -- the body of the inner loop
  unfoldable pub on_specifier : String → String → Walk → Walk
  unfolding hop
  on_specifier file specifier w = elim (hop file specifier) [
    | escapes ↦ record w { escapes = add specifier w.escapes }
    | missing target ↦ record w {
      failures =
          w.failures ++ (record { file = file; specifier = specifier; target = target } ∷ []);
    }
    | to resolved ↦
        if has resolved w.visited
        then w
        else record w { visited = w.visited ++ (resolved ∷ []); queue = w.queue ++ (resolved ∷ []) }
  ]

  unfoldable pub on_specifiers : String → List String → Walk → Walk
  on_specifiers file [] w = w
  on_specifiers file (specifier ∷ rest) w = on_specifiers file rest (on_specifier file specifier w)

  -- one round of the outer loop, for the file that is shifted off the queue
  unfoldable pub on_file : String → String → List String → Walk → Walk
  on_file file source rest w = on_specifiers file (specifiers source) (record w { queue = rest })

  unfoldable pub walk_from : ℕ → Walk → Outcome
  walk_from zero w = elim w.queue [ [] ↦ returned w | _ ∷ _ ↦ out_of_fuel ]
  walk_from (suc fuel) w = elim w.queue [
    | [] ↦ returned w
    | file ∷ rest ↦ elim (lookup file shipped) [
      | none ↦ throws
      | some source ↦ walk_from fuel (on_file file source rest w)
    ]
  ]

  abbrev pub first_walk : String → Walk
  first_walk entry = record {
    visited = entry ∷ [];
    queue = entry ∷ [];
    failures = [];
    escapes = [];
  }

  -- The fuel is a round for each file.
  unfoldable pub walk_boot_path : String → Outcome
  unfolding walk_from
  walk_boot_path entry = walk_from (length shipped) (first_walk entry)
