-- ===== src/BootPath/Reached.antt =====
-- The whole walk: it ends, and it visits what can be reached.
use mathlib.Core.Logic.{⊎_elim}
use mathlib.Core.List.{Memᴰ}
use mathlib.Core.List.Memᴰ
use dashboards_query_workben.Common.{
  ℕ, zero, suc, ◌≤◌, String, true, none, some, List, [], ◌∷◌, ◌≡◌, ◌↔◌, ◌⊎◌, inl, inr, arith,
  length, ap, eq_refl, eq_iff, List-cases, Option-cases,
}
use dashboards_query_workben.Common.Dict.{lookup}
use dashboards_query_workben.BootPath.Specifiers.{specifiers}
use dashboards_query_workben.BootPath.{
  PosixPath, Shipped, is_shipped, has, missing, to, hop, Failure, Walk, returned, on_file,
  walk_from, first_walk, walk_boot_path,
}
use dashboards_query_workben.BootPath.Hops.{is_shipped-lookup, unseen-entry-lt}
use dashboards_query_workben.BootPath.Round.{hop-shipped, work, Extends, on_specifiers-Extends}

-- The relative imports of a file that is shipped, with those of a source.
abbrev pub loads_of : (String → List String) → Shipped → String → List String
loads_of required shipped file = elim (lookup file shipped) [
  | none ↦ []
  | some source ↦ required source
]

-- Those that the check finds.
abbrev imports_of : Shipped → String → List String
imports_of shipped file = loads_of specifiers shipped file

module _ (path : PosixPath) (shipped : Shipped) (imports : String → List String) where
  -- A relative import of `file` that leads to `g`.
  abbrev pub Imports : String → String → Type 0
  Imports file g = (s : String) × Memᴰ s (imports file) × (hop path shipped file s ≡ to g)

  -- What the server loads when it starts at `entry`.
  pub data Reach (entry : String) : String → Type 0 where
    here : Reach entry entry
    next : {file g : String} → Reach entry file → Imports file g → Reach entry g

  -- An import of a file that is loaded, with nothing shipped where it leads.
  abbrev pub Broken : String → Failure → Type 0
  Broken entry x =
      Reach entry x.file
      × Memᴰ x.specifier (imports x.file)
      × (hop path shipped x.file x.specifier ≡ missing x.target)

module _ (path : PosixPath) (shipped : Shipped) where
  -- More imports reach more.
  pub Reach-mono :
      (imports more : String → List String) (entry : String)
      → ((file s : String) → Memᴰ s (imports file) → Memᴰ s (more file))
      → {file : String} → Reach path shipped imports entry file
      → Reach path shipped more entry file
  Reach-mono imports more entry h here = here
  Reach-mono imports more entry h (next {file} {g} r (s, m, e)) =
      next (Reach-mono imports more entry h r) (s, h file s m, e)

  Reach-shipped :
      (entry : String)
      → is_shipped entry shipped ≡ true
      → {file : String} → Reach path shipped (imports_of shipped) entry file
      → is_shipped file shipped ≡ true
  Reach-shipped entry h here = h
  Reach-shipped entry h (next {file} {g} r (s, m, e)) = hop-shipped path shipped file s g e

  -- All imports of the file have been followed.
  record Settled (w : Walk) (file : String) : Type 0 where
    followed :
        (s g : String)
        → Memᴰ s (imports_of shipped file)
        → hop path shipped file s ≡ to g
        → has g w.visited ≡ true
    blamed :
        (s t : String)
        → Memᴰ s (imports_of shipped file)
        → hop path shipped file s ≡ missing t
        → Memᴰ (record { file = file; specifier = s; target = t }) w.failures

  module _ (entry : String) where
    record Inv (w : Walk) : Type 0 where
      source : has entry w.visited ≡ true
      queued : (f : String) → has f w.queue ≡ true → has f w.visited ≡ true
      sound :
          (f : String) → has f w.visited ≡ true → Reach path shipped (imports_of shipped) entry f
      settled : (f : String) → has f w.visited ≡ true → (has f w.queue ≡ true) ⊎ Settled w f
      fair : (x : Failure) → Memᴰ x w.failures → Broken path shipped (imports_of shipped) entry x

    has-singleton : (f : String) → has f (entry ∷ []) ≡ true → f ≡ entry
    has-singleton f h = ground (arith, eq_iff entry f)

    Inv-first : Inv (first_walk path shipped entry)
    Inv-first = record {
      source = ground (arith, eq_refl entry);
      queued = λ f h. h;
      sound = λ f h. rw (has-singleton f h) here;
      settled = λ f h. inl h;
      fair = λ x m. absurd (Memᴰ.not-nil m);
    }

    module _ (w : Walk) (file source : String) (rest : List String) (h : Inv w)
        (q : w.queue ≡ file ∷ rest) (l : lookup file shipped ≡ some source) where
      abbrev w' : Walk
      w' = on_file path shipped file source rest w

      ext : Extends path shipped file (imports_of shipped file) (record w { queue = rest }) w'
      unfolding on_file
      ext =
          rw (l, loads_of)
            (on_specifiers-Extends path shipped file (specifiers source)
              (record w { queue = rest }))

      in_queue : (f : String) → has f rest ≡ true → has f w.queue ≡ true
      in_queue f k = rw q (ground arith)

      visited : has file w.visited ≡ true
      visited = h.queued file (rw q (ground (arith, eq_refl file)))

      out_of_queue : (f : String) → has f w.queue ≡ true → (f ≡ file) ⊎ (has f rest ≡ true)
      out_of_queue f k =
          let k' : has f (file ∷ rest) ≡ true = rw q at k in ground (arith, eq_iff file f)

      now_settled : Settled w' file
      now_settled = record { followed = ext.followed; blamed = ext.blamed }

      still_settled : (f : String) → Settled w f → Settled w' f
      still_settled f k = record {
        followed = λ s g m e. ext.grows g (k.followed s g m e);
        blamed = λ s t m e. ext.keeps _ (k.blamed s t m e);
      }

      Inv-on_file : Inv w'
      Inv-on_file = record {
        source = ext.grows entry h.source;
        queued = λ f k.
            ⊎_elim (λ old. ext.grows f (h.queued f (in_queue f old))) (λ v. v) (ext.queued f k);
        sound =
            λ f k. ⊎_elim (h.sound f) (λ found. next (h.sound file visited) found.1) (ext.new f k);
        settled = λ f k.
            ⊎_elim
              (λ old.
                ⊎_elim
                  (λ waiting.
                    ⊎_elim (λ same. inr (rw same now_settled)) (λ later. inl (ext.waits f later))
                      (out_of_queue f waiting))
                  (λ done. inr (still_settled f done)) (h.settled f old))
              (λ found. inl found.0) (ext.new f k);
        fair = λ x m.
            ⊎_elim (h.fair x) (λ (same, mem, e). rw same (h.sound file visited, mem, e))
              (ext.fair x m);
      }

    first_visited :
        (w : Walk) (file : String) (rest : List String)
        → Inv w
        → w.queue ≡ file ∷ rest
        → has file w.visited ≡ true
    first_visited w file rest h q = h.queued file (rw q (ground (arith, eq_refl file)))

    less_work :
        (w : Walk) (file source : String) (rest : List String)
        → w.queue ≡ file ∷ rest
        → lookup file shipped ≡ some source
        → suc (work path shipped (on_file path shipped file source rest w)) ≤ work path shipped w
    unfolding on_file
    less_work w file source rest q l = omega (
      arith,
      (on_specifiers-Extends path shipped file (specifiers source)
          (record w { queue = rest })).less,
      ap length q,
    )

    -- With a round for each file that is left, the loop ends with the invariant.
    walk_from-Inv :
        is_shipped entry shipped ≡ true
        → (fuel : ℕ) (w : Walk) → Inv w
        → work path shipped w ≤ fuel
        → (t : Walk) × (walk_from path shipped fuel w ≡ returned t) × Inv t × (t.queue ≡ [])
    unfolding walk_from
    walk_from-Inv known zero w h le = elim (List-cases w.queue) [
      | inl empty ↦ (w, simp (empty, walk_from), h, empty)
      | inr (file, rest, q) ↦ absurd (omega (arith, ap length q))
    ]
    walk_from-Inv known (suc fuel) w h le = elim (List-cases w.queue) [
      | inl empty ↦ (w, simp (empty, walk_from), h, empty)
      | inr (file, rest, q) ↦
          let (source, l) =
            is_shipped-lookup file shipped
              (Reach-shipped entry known (h.sound file (first_visited w file rest h q))) in
          let (t, e, inv, empty) =
            walk_from-Inv known fuel (on_file path shipped file source rest w)
              (Inv-on_file w file source rest h q l)
              (omega (arith, less_work w file source rest q l)) in
          (t, rw (q, walk_from) (rw (l, walk_from) e), inv, empty)
    ]

    walk-Inv :
        is_shipped entry shipped ≡ true
        → (t : Walk) × (walk_boot_path path shipped entry ≡ returned t) × Inv t × (t.queue ≡ [])
    unfolding walk_boot_path
    walk-Inv known =
        walk_from-Inv known (length shipped) (first_walk path shipped entry) Inv-first
          (omega (arith, unseen-entry-lt shipped entry known))

    Settled-all :
        (t : Walk) → Inv t → t.queue ≡ [] → (f : String) → has f t.visited ≡ true → Settled t f
    Settled-all t h empty f v =
        ⊎_elim (λ waiting. absurd (let none_ : has f [] ≡ true = rw empty at waiting in cc))
          (λ k. k) (h.settled f v)

    Reach-visited :
        (t : Walk)
        → Inv t
        → t.queue ≡ []
        → {f : String} → Reach path shipped (imports_of shipped) entry f
        → has f t.visited ≡ true
    Reach-visited t h empty here = h.source
    Reach-visited t h empty (next {file} {g} r (s, m, e)) =
        (Settled-all t h empty file (Reach-visited t h empty r)).followed s g m e

-- If the entry is shipped, the walk comes back, and with no file left in its queue.
pub walk_boot_path-returns :
    (path : PosixPath) (shipped : Shipped) (entry : String)
    → is_shipped entry shipped ≡ true
    → (w : Walk) × (walk_boot_path path shipped entry ≡ returned w) × (w.queue ≡ [])
walk_boot_path-returns path shipped entry known =
    let (t, e, inv, empty) = walk-Inv path shipped entry known in (t, e, empty)

-- What a walk has visited, and where it has failed, in terms of the imports that the check finds.
walk-Reach :
    (path : PosixPath) (shipped : Shipped) (entry : String) (w : Walk)
    → is_shipped entry shipped ≡ true
    → walk_boot_path path shipped entry ≡ returned w
    → ((file : String)
        → (has file w.visited ≡ true) ↔ Reach path shipped (imports_of shipped) entry file)
      × ((x : Failure) → Memᴰ x w.failures ↔ Broken path shipped (imports_of shipped) entry x)
walk-Reach path shipped entry w known e =
    let (t, e', inv, empty) = walk-Inv path shipped entry known in
    let same : w ≡ t = cc in
    rw same (
      λ file. (inv.sound file, Reach-visited path shipped entry t inv empty),
      λ x. (
        inv.fair x,
        λ (r, m, h).
            (Settled-all path shipped entry t inv empty x.file
                (Reach-visited path shipped entry t inv empty r)).blamed
              x.specifier x.target m h,
      ),
    )

-- The regular expression finds exactly the relative imports of each file that is shipped, `required` being those that
-- Node resolves when it loads a source.
abbrev pub AreFound : (String → List String) → Shipped → Type 0
AreFound required shipped =
    (file source : String)
    → lookup file shipped ≡ some source
    → (s : String) → Memᴰ s (required source) ↔ Memᴰ s (specifiers source)

pub found_lem :
    (required : String → List String) (shipped : Shipped)
    → AreFound required shipped
    → (file s : String) → Memᴰ s (loads_of required shipped file) ↔ Memᴰ s (imports_of shipped file)
found_lem required shipped found file s = elim (Option-cases (lookup file shipped)) [
  | inl gone ↦ rw (gone, loads_of) ((λ m. m), (λ m. m))
  | inr (source, l) ↦ rw (l, loads_of) (found file source l s)
]

pub walk_boot_path-Reach :
    (path : PosixPath) (shipped : Shipped) (required : String → List String) (entry : String)
    (w : Walk)
    → AreFound required shipped
    → is_shipped entry shipped ≡ true
    → walk_boot_path path shipped entry ≡ returned w
    → ((file : String)
        → (has file w.visited ≡ true) ↔ Reach path shipped (loads_of required shipped) entry file)
      × ((x : Failure)
          → Memᴰ x w.failures ↔ Broken path shipped (loads_of required shipped) entry x)
walk_boot_path-Reach path shipped required entry w found known e =
    let (visits, fails) = walk-Reach path shipped entry w known e in
    let loads = loads_of required shipped in
    let same = found_lem required shipped found in
    let down : (g : String)
        → Reach path shipped loads entry g
        → Reach path shipped (imports_of shipped) entry g =
      λ g r.
        Reach-mono path shipped loads (imports_of shipped) entry (λ file s. (same file s).0) r in
    let up : (g : String)
        → Reach path shipped (imports_of shipped) entry g
        → Reach path shipped loads entry g =
      λ g r.
        Reach-mono path shipped (imports_of shipped) loads entry (λ file s. (same file s).1) r in
    (
      λ file. (λ v. up file ((visits file).0 v), λ r. (visits file).1 (down file r)),
      λ x. (
        λ m. let (r, mem, h) = (fails x).0 m in (up x.file r, (same x.file x.specifier).1 mem, h),
        λ (r, mem, h). (fails x).1 (down x.file r, (same x.file x.specifier).0 mem, h),
      ),
    )
