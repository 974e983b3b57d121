-- ===== src/BootPath/Round.antt =====
-- One round of the walk: what the imports of a file add to the sets.
use mathlib.Core.Logic.{⊎_elim}
use mathlib.Core.List.{Memᴰ}
use mathlib.Core.List.Memᴰ
use dashboards_query_workben.Common.{
  ℕ, ◌+◌, ◌≤◌, String, true, false, List, [], ◌∷◌, ◌++◌, ◌≡◌, refl, ◌⊎◌, inl, inr, arith, length,
  length-append, Bool-cases,
}
use dashboards_query_workben.BootPath.{
  PosixPath, Shipped, is_shipped, has, Hop, escapes, missing, to, hop, Failure, Walk, on_specifier,
  on_specifiers, target_of,
}
use dashboards_query_workben.BootPath.Hops.{
  has-concat, resolve_within-shipped, unseen, unseen-concat-lt,
}

module _ (path : PosixPath) (shipped : Shipped) where
  pub hop-shipped :
      (file specifier g : String)
      → hop path shipped file specifier ≡ to g
      → is_shipped g shipped ≡ true
  unfolding hop
  hop-shipped file specifier g h =
      ground (arith, resolve_within-shipped shipped (target_of path shipped file specifier) g)

  -- What is left to do: a file that is not visited, or that waits, is a round.
  abbrev pub work : Walk → ℕ
  work w = unseen shipped w.visited + length w.queue

  abbrev pub Blames : String → List String → Failure → Type 0
  Blames file specs x =
      (x.file ≡ file)
      × Memᴰ x.specifier specs
      × (hop path shipped file x.specifier ≡ missing x.target)

  -- The imports `specs` of `file` have been followed from `w` to `w'`.
  pub record Extends (file : String) (specs : List String) (w w' : Walk) : Type 0 where
    pub grows : (g : String) → has g w.visited ≡ true → has g w'.visited ≡ true
    pub waits : (g : String) → has g w.queue ≡ true → has g w'.queue ≡ true
    pub new :
        (g : String)
        → has g w'.visited ≡ true
        → (has g w.visited ≡ true)
          ⊎ ((has g w'.queue ≡ true)
              × ((s : String) × Memᴰ s specs × (hop path shipped file s ≡ to g)))
    pub queued :
        (g : String) → has g w'.queue ≡ true → (has g w.queue ≡ true) ⊎ (has g w'.visited ≡ true)
    pub followed :
        (s g : String) → Memᴰ s specs → hop path shipped file s ≡ to g → has g w'.visited ≡ true
    pub keeps : (x : Failure) → Memᴰ x w.failures → Memᴰ x w'.failures
    pub blamed :
        (s t : String)
        → Memᴰ s specs
        → hop path shipped file s ≡ missing t
        → Memᴰ (record { file = file; specifier = s; target = t }) w'.failures
    pub fair : (x : Failure) → Memᴰ x w'.failures → Memᴰ x w.failures ⊎ Blames file specs x
    pub less : work w' ≤ work w

  module _ (file s : String) (w : Walk) where
    only : {r : String} → Memᴰ r (s ∷ []) → r ≡ s
    only m = Memᴰ.eq_of_singleton m

    -- An import that changes neither set.
    quiet :
        (w' : Walk)
        → w'.visited ≡ w.visited
        → w'.queue ≡ w.queue
        → w'.failures ≡ w.failures
        → ((g : String) → hop path shipped file s ≡ to g → has g w.visited ≡ true)
        → ((t : String) → hop path shipped file s ≡ missing t → ⊥)
        → Extends file (s ∷ []) w w'
    quiet w' v q f known found = record {
      grows = λ g h. rw v h;
      waits = λ g h. rw q h;
      new = λ g h. inl (rw v at h);
      queued = λ g h. inl (rw q at h);
      followed = λ r g m h. rw v (known g (rw (only m) at h));
      keeps = λ x m. rw f m;
      blamed = λ r t m h. absurd (found t (rw (only m) at h));
      fair = λ x m. inl (rw f at m);
      less = rw (v, q) (omega arith);
    }

    unresolved :
        (target : String)
        → hop path shipped file s ≡ missing target
        → Extends file (s ∷ []) w (record w {
          failures = w.failures ++ (record { file = file; specifier = s; target = target } ∷ []);
        })
    unresolved target e = record {
      grows = λ g h. h;
      waits = λ g h. h;
      new = λ g h. inl h;
      queued = λ g h. inl h;
      followed =
          λ r g m h. let h' : hop path shipped file s ≡ to g = rw (only m) at h in absurd (cc);
      keeps = λ x m. Memᴰ.append_left _ m;
      blamed = λ r t m h.
          let h' : hop path shipped file s ≡ missing t = rw (only m) at h in
          let same : t ≡ target = cc in
          rw (only m, same) (Memᴰ.append_right w.failures (Memᴰ.head refl));
      fair = λ x m.
          ⊎_elim inl (λ last. let e' = Memᴰ.eq_of_singleton last in inr (cc, Memᴰ.head (cc), cc))
            (Memᴰ.append_cases w.failures m);
      less = omega arith;
    }

    discovered :
        (g : String)
        → hop path shipped file s ≡ to g
        → has g w.visited ≡ false
        → Extends file
            (s ∷ [])
            w
            (record w { visited = w.visited ++ (g ∷ []); queue = w.queue ++ (g ∷ []) })
    discovered g e n = record {
      grows = λ x h. (has-concat x g w.visited).1 (inl h);
      waits = λ x h. (has-concat x g w.queue).1 (inl h);
      new = λ x h.
          ⊎_elim inl (λ same. inr ((has-concat x g w.queue).1 (inr same), (s, Memᴰ.head refl, cc)))
            ((has-concat x g w.visited).0 h);
      queued = λ x h.
          ⊎_elim inl (λ same. inr ((has-concat x g w.visited).1 (inr same)))
            ((has-concat x g w.queue).0 h);
      followed = λ r x m h.
          let h' : hop path shipped file s ≡ to x = rw (only m) at h in
          (has-concat x g w.visited).1 (inr (cc));
      keeps = λ x m. m;
      blamed =
          λ r t m h. let h' : hop path shipped file s ≡ missing t = rw (only m) at h in absurd (cc);
      fair = λ x m. inl m;
      less = omega (
        arith,
        unseen-concat-lt shipped w.visited g (hop-shipped file s g e) n,
        length-append w.queue (g ∷ []),
      );
    }

    by_hop :
        (h : Hop)
        → hop path shipped file s ≡ h
        → Extends file (s ∷ []) w (on_specifier path shipped file s w)
    unfolding on_specifier
    by_hop escapes e =
        rw (e, on_specifier) (quiet _ refl refl refl (λ g k. absurd (cc)) (λ t k. cc))
    by_hop (missing t) e = rw (e, on_specifier) (unresolved t e)
    by_hop (to g) e = elim (Bool-cases (has g w.visited)) [
      | inl known ↦
          rw (e, on_specifier, known)
            (quiet w refl refl refl (λ x k. let same : x ≡ g = cc in rw same known) (λ t k. cc))
      | inr unknown ↦ rw (e, on_specifier, unknown) (discovered g e unknown)
    ]

    pub on_specifier-Extends : Extends file (s ∷ []) w (on_specifier path shipped file s w)
    on_specifier-Extends = by_hop (hop path shipped file s) refl

  module _ (file s : String) (rest : List String) (w w1 w2 : Walk) where
    both : Extends file (s ∷ []) w w1 → Extends file rest w1 w2 → Extends file (s ∷ rest) w w2
    both a b = record {
      grows = λ g h. b.grows g (a.grows g h);
      waits = λ g h. b.waits g (a.waits g h);
      new = λ g h.
          ⊎_elim
            (λ before.
              ⊎_elim inl
                (λ first.
                  let (q, (r, m, e)) = first in
                  inr (b.waits g q, (r, Memᴰ.head (Memᴰ.eq_of_singleton m), e)))
                (a.new g before))
            (λ later. let (q, (r, m, e)) = later in inr (q, (r, Memᴰ.tail m, e))) (b.new g h);
      queued = λ g h.
          ⊎_elim (λ before. ⊎_elim inl (λ v. inr (b.grows g v)) (a.queued g before)) inr
            (b.queued g h);
      followed = λ r g m h.
          ⊎_elim (λ same. b.grows g (a.followed r g (Memᴰ.head same) h))
            (λ later. b.followed r g later h) (Memᴰ.cases_cons m);
      keeps = λ x m. b.keeps x (a.keeps x m);
      blamed = λ r t m h.
          ⊎_elim (λ same. b.keeps _ (a.blamed r t (Memᴰ.head same) h))
            (λ later. b.blamed r t later h) (Memᴰ.cases_cons m);
      fair = λ x m.
          ⊎_elim
            (λ before.
              ⊎_elim inl (λ first. inr (first.0, Memᴰ.head (Memᴰ.eq_of_singleton first.1), first.2))
                (a.fair x before))
            (λ later. inr (later.0, Memᴰ.tail later.1, later.2)) (b.fair x m);
      less = omega (arith, a.less, b.less);
    }

  nothing : (file : String) (w : Walk) → Extends file [] w w
  nothing file w = record {
    grows = λ g h. h;
    waits = λ g h. h;
    new = λ g h. inl h;
    queued = λ g h. inl h;
    followed = λ r g m h. absurd (Memᴰ.not-nil m);
    keeps = λ x m. m;
    blamed = λ r t m h. absurd (Memᴰ.not-nil m);
    fair = λ x m. inl m;
    less = omega arith;
  }

  pub on_specifiers-Extends :
      (file : String) (specs : List String) (w : Walk)
      → Extends file specs w (on_specifiers path shipped file specs w)
  unfolding on_specifiers
  on_specifiers-Extends file [] w = nothing file w
  on_specifiers-Extends file (s ∷ rest) w =
      both file s rest w (on_specifier path shipped file s w)
        (on_specifiers path shipped file rest (on_specifier path shipped file s w))
        (on_specifier-Extends file s w)
        (on_specifiers-Extends file rest (on_specifier path shipped file s w))
