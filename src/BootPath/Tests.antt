-- ===== src/BootPath/Tests.antt =====
-- A plugin of three files, and the texts of imports.
use mathlib.Core.List.{Memᴰ}
use dashboards_query_workben.Common.{
  List, String, true, false, none, some, [], ◌∷◌, ◌≡◌, ◌↔◌, refl, if◌then◌else◌, ◌==◌,
}
use dashboards_query_workben.Common.Dict.{lookup, insert}
use dashboards_query_workben.BootPath.{
  PosixPath, Shipped, Walk, returned, walk_boot_path, walk_from, on_file, on_specifiers,
  on_specifier, hop, resolve_within,
}
use dashboards_query_workben.BootPath.Specifiers.{specifiers}
use dashboards_query_workben.BootPath.Reached.{Reach, loads_of, walk_boot_path-returns}
use dashboards_query_workben.BootPath.Verdict.{
  Source, list_shipped_files, entry_of, exit_code, main, incomplete, no_entry, crashed,
}
use dashboards_query_workben.BootPath.Boots.{Leads, main-exit_code_iff}

specifiers_of_forms :
    specifiers
      "import { a } from './a'; export * from \"../b\"; const c = require( './c' ); import('./d')"
    ≡ "./a" ∷ "../b" ∷ "./c" ∷ "./d" ∷ []
unfolding specifiers
specifiers_of_forms = refl

specifiers_of_packages : specifiers "import x from 'react'; notfrom './a'; from './b" ≡ []
unfolding specifiers
specifiers_of_packages = refl

-- An import for its effects alone is not seen.
specifiers_of_effects : specifiers "import './polyfill';" ≡ []
unfolding specifiers
specifiers_of_effects = refl

-- `path.posix` on the paths of the sample
abbrev posix : PosixPath
posix = record {
  dirname = λ file. if file == "server/routes/index.ts" then "server/routes" else "server";
  join = λ dir specifier.
      if specifier == "./routes"
      then "server/routes"
      else if specifier == "../index"
      then "server/index"
      else if specifier == "../"
      then "server/"
      else if specifier == "../../common/gone"
      then "common/gone"
      else "../../src/core/server";
}

abbrev files : Shipped
files =
    ("server/index.ts", "import { routes } from './routes'")
    ∷ (
      "server/routes/index.ts",
      "import { p } from '../index'; import { c } from '../../../../src/core/server'",
    )
    ∷ ("common/unused.ts", "import x from '../../common/gone'")
    ∷ []

abbrev walked : Walk
walked = record {
  visited = "server/index.ts" ∷ "server/routes/index.ts" ∷ [];
  queue = [];
  failures = [];
  escapes = "../../../../src/core/server" ∷ [];
}

walk_boot_path-returns_example :
    (w : Walk) × (walk_boot_path posix files "server/index.ts" ≡ returned w) × (w.queue ≡ [])
walk_boot_path-returns_example = walk_boot_path-returns posix files "server/index.ts" refl

-- With these files Node finds what the regular expression finds.
abbrev node_finds : String → List String
node_finds source = specifiers source

abbrev source : Source
source patterns left_out = some (
    record {
      relative = "server/index.ts";
      is_directory = false;
      contents = "import { routes } from './routes'";
    }
    ∷ record { relative = "server/routes"; is_directory = true; contents = "" }
    ∷ record {
      relative = "server/routes/index.ts";
      is_directory = false;
      contents = "import { gone } from '../../common/gone'; import { p } from '../'";
    }
    ∷ [])

abbrev shipped : Shipped
shipped =
    ("server/index.ts", "import { routes } from './routes'")
    ∷ (
      "server/routes/index.ts", "import { gone } from '../../common/gone'; import { p } from '../'",
    )
    ∷ []

main-exit_code_iff_example : (exit_code (main posix source true none) ≡ 0) ↔ (
    (file s : String)
    → Reach posix shipped (loads_of node_finds shipped) "server/index.ts" file
    → Memᴰ s (loads_of node_finds shipped file)
    → Leads posix shipped file s)
unfolding list_shipped_files entry_of insert
main-exit_code_iff_example =
    main-exit_code_iff posix source none shipped node_finds "server/index.ts"
      (λ file source l s. ((λ m. m), (λ m. m))) refl refl

-- The directory itself, written with a slash at its end, is reported although its index is shipped.
main_sample :
    main posix source true none
    ≡ incomplete
        (record {
          file = "server/routes/index.ts";
          specifier = "../../common/gone";
          target = "common/gone";
        }
          ∷ record { file = "server/routes/index.ts"; specifier = "../"; target = "server/" }
          ∷ [])
        ("common" ∷ "server" ∷ [])
unfolding main walk_from on_file on_specifiers on_specifier hop resolve_within specifiers lookup
    insert list_shipped_files
main_sample = refl

main_no_entry : main posix (λ patterns left_out. some []) true none ≡ no_entry
unfolding main
main_no_entry = refl

main_unreadable : main posix (λ patterns left_out. none) true none ≡ crashed
unfolding main
main_unreadable = refl
