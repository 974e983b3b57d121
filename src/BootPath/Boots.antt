-- ===== src/BootPath/Boots.antt =====
-- What an exit code of 0 says of the files that would be shipped.
use mathlib.Core.Logic.{⊎_elim}
use mathlib.Core.List.{Memᴰ}
use mathlib.Core.List.Memᴰ
use dashboards_query_workben.Common.{
  String, Bool, true, false, Option, none, some, List, [], ◌∷◌, ◌++◌, ◌≡◌, refl, ◌↔◌, ◌⊎◌, inl, inr,
  arith, any, find, Bool-cases, Option-cases, List-cases,
}
use dashboards_query_workben.Common.Search.{starts_with}
use dashboards_query_workben.BootPath.{
  PosixPath, Shipped, is_shipped, resolve_within, plain_candidates, index_candidates, missing, hop,
  target_of,
}
use dashboards_query_workben.BootPath.Hops.{find-holds}
use dashboards_query_workben.BootPath.Reached.{
  loads_of, AreFound, Reach, walk_boot_path-returns, walk_boot_path-Reach,
}
use dashboards_query_workben.BootPath.Verdict.{
  Config, Source, list_shipped_files, patterns_of, entry_of, server_entry_candidates, report_of,
  exit_code, main,
}

-- The files that a relative import may lead to.
abbrev pub candidates : String → List String
candidates target = plain_candidates target ++ index_candidates target

-- An import that leaves the plugin, or leads to a file that is shipped.
abbrev pub Leads : PosixPath → Shipped → String → String → Type 0
Leads path shipped file specifier =
    (starts_with ".." (target_of path shipped file specifier) ≡ true)
    ⊎ (any (λ c. is_shipped c shipped) (candidates (target_of path shipped file specifier)) ≡ true)

find-any :
    (p : String → Bool) (xs ys : List String)
    → find p xs ≡ none
    → find p ys ≡ none
    → any p (xs ++ ys) ≡ false
find-any p [] [] h k = refl
find-any p [] (y ∷ ys) h k = elim (Bool-cases (p y)) [
  | inl yes_ ↦ absurd (let k' : some y ≡ none = rw yes_ at k in cc)
  | inr no_ ↦ rw no_ (find-any p [] ys h (rw no_ at k))
]
find-any p (x ∷ xs) ys h k = elim (Bool-cases (p x)) [
  | inl yes_ ↦ absurd (let h' : some x ≡ none = rw yes_ at h in cc)
  | inr no_ ↦ rw no_ (find-any p xs ys (rw no_ at h) k)
]

any-find :
    (p : String → Bool) (xs ys : List String) (x : String)
    → (find p xs ≡ some x) ⊎ (find p ys ≡ some x)
    → any p (xs ++ ys) ≡ true
any-find p [] [] x h = ⊎_elim (λ e. absurd (cc)) (λ e. absurd (cc)) h
any-find p [] (y ∷ ys) x h = elim (Bool-cases (p y)) [
  | inl yes_ ↦ rw yes_ refl
  | inr no_ ↦ rw no_ (any-find p [] ys x (inr (⊎_elim (λ e. absurd (cc)) (λ e. rw no_ at e) h)))
]
any-find p (y ∷ xs) ys x h = elim (Bool-cases (p y)) [
  | inl yes_ ↦ rw yes_ refl
  | inr no_ ↦ rw no_ (any-find p xs ys x (⊎_elim (λ e. inl (rw no_ at e)) inr h))
]

module _ (path : PosixPath) (shipped : Shipped) (file s : String) where
  abbrev holds : String → Bool
  holds c = is_shipped c shipped

  abbrev plain : List String
  plain = plain_candidates (target_of path shipped file s)

  abbrev indexed : List String
  indexed = index_candidates (target_of path shipped file s)

  -- An import that is not missing leads somewhere.
  hop-Leads : ((t : String) → hop path shipped file s ≡ missing t → ⊥) → Leads path shipped file s
  unfolding hop resolve_within
  hop-Leads h = elim (Bool-cases (starts_with ".." (target_of path shipped file s))) [
    | inl up ↦ inl up
    | inr inside ↦ elim (Option-cases (find holds plain)) [
      | inr (g, e) ↦ inr (any-find holds plain indexed g (inl e))
      | inl e ↦ elim (Option-cases (find holds indexed)) [
        | inr (g, e') ↦ inr (any-find holds plain indexed g (inr e'))
        | inl e' ↦ absurd (h (target_of path shipped file s) (rw (inside, e, e')))
      ]
    ]
  ]

  missing-Leads : (t : String) → hop path shipped file s ≡ missing t → Leads path shipped file s → ⊥
  unfolding hop resolve_within
  missing-Leads t h k = elim (Bool-cases (starts_with ".." (target_of path shipped file s))) [
    | inl up ↦ absurd (ground (arith, up))
    | inr inside ↦ ground (arith, find-any holds plain indexed)
  ]

entry_of-shipped :
    (shipped : Shipped) (entry : String)
    → entry_of shipped ≡ some entry
    → is_shipped entry shipped ≡ true
unfolding entry_of
entry_of-shipped shipped entry h =
    find-holds (λ candidate. is_shipped candidate shipped) server_entry_candidates entry h

-- If the patterns can be listed and ship an entry, and the regular expression finds exactly the relative imports of the
-- files that are shipped, the check exits with 0 exactly if each relative import of
-- each file that the server loads from the entry leaves the plugin or has a file that is shipped among its
-- candidates.
pub main-exit_code_iff :
    (path : PosixPath) (src : Source) (config : Option Config) (shipped : Shipped)
    (required : String → List String) (entry : String)
    → AreFound required shipped
    → list_shipped_files src (patterns_of config) ≡ some shipped
    → entry_of shipped ≡ some entry
    → (exit_code (main path src true config) ≡ 0) ↔ (
        (file s : String)
        → Reach path shipped (loads_of required shipped) entry file
        → Memᴰ s (loads_of required shipped file)
        → Leads path shipped file s)
unfolding main report_of exit_code
main-exit_code_iff path src config shipped required entry exact_finds listed found =
    let known = entry_of-shipped shipped entry found in
    let (w, e, empty) = walk_boot_path-returns path shipped entry known in
    let exact = (walk_boot_path-Reach path shipped required entry w exact_finds known e).1 in
    elim (List-cases w.failures) [
      | inl none_ ↦ (
        λ _ file s r m. hop-Leads path shipped file s (λ t h.
            Memᴰ.not-nil (
              rw none_ at (exact (record { file = file; specifier = s; target = t })).1 (r, m, h))),
        λ _. simp (listed, found, e, none_, main, report_of),
      )
      | inr (x, rest, some_) ↦
          let (r, m, h) = (exact x).0 (rw some_ (Memᴰ.head refl)) in
          (
            λ zero_. absurd (ground (arith, listed, found, e, some_)),
            λ leads. absurd (
                missing-Leads path shipped x.file x.specifier x.target h
                  (leads x.file x.specifier r m)),
          )
    ]
