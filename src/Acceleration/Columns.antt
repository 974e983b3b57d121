-- ===== src/Acceleration/Columns.antt =====
-- Reading a statement's backquoted names back, independently of how it was built.
pub mod Plain
pub mod Statement
pub mod Whole
use Prim.Native.Char.{Char, code}
use Prim.Native.String
use text.Mathlib.TextLemmas.{nil-append, cons-append, append-nil, append_assoc}
use mathlib.Core.List
use dashboards_query_workben.Common.{
  ℕ, String, Bool, true, false, not, Option, none, some, List, [], ◌∷◌, ◌++◌, map, ◌≡◌, refl, arith,
  if◌then◌else◌, eqb, every, ◌⧺◌, join, All,
}

-- Outside backquotes, or inside with what has been read of the name.
abbrev pub ReaderState : Type 0
ReaderState = Option String

abbrev read_char : ReaderState → Char → List String × ReaderState
read_char none c = if eqb (code c) b'`' then ([], some "") else ([], none)
read_char (some name) c =
    if eqb (code c) b'`' then (name ∷ [], none) else ([], some (name ⧺ String.◌∷◌ c String.[]))

-- The names read, and the state at the end.
unfoldable pub read : ReaderState → String → List String × ReaderState
read st String.[] = ([], st)
read st (String.◌∷◌ c s) =
    let (names, st') = read_char st c in let (more, st'') = read st' s in (names ++ more, st'')

-- The names between backquotes, in order.
unfoldable pub quoted_names : String → List String
unfolding read
quoted_names s = (read none s).0

abbrev pub no_tick : String → Bool
no_tick s = every (λ c. not (eqb c b'`')) s

abbrev pub Reads : ReaderState → String → List String → ReaderState → Type 0
Reads st s names st' = read st s ≡ (names, st')

list_assoc {ℓ} : {A : Type ℓ} (xs ys zs : List A) → (xs ++ ys) ++ zs ≡ xs ++ (ys ++ zs)
list_assoc [] ys zs = refl
list_assoc (x ∷ xs) ys zs = rw (list_assoc xs ys zs)

read-append :
    (st : ReaderState) (s t : String)
    → read st (s ⧺ t) ≡ ((read st s).0 ++ (read (read st s).1 t).0, (read (read st s).1 t).1)
unfolding read
read-append st String.[] t = rw nil-append
read-append st (String.◌∷◌ c s) t = rw cons-append (
    ground (
      arith,
      read-append (read_char st c).1 s t,
      list_assoc (read_char st c).0 (read (read_char st c).1 s).0
          (read (read (read_char st c).1 s).1 t).0,
    ))

pub Reads-then :
    (st : ReaderState) {st' st'' : ReaderState} {names more : List String} (s t : String)
    → Reads st s names st'
    → Reads st' t more st''
    → Reads st (s ⧺ t) (names ++ more) st''
Reads-then st s t h k = rw (read-append st s t, h, k)

pub Reads-plain : (s : String) → no_tick s ≡ true → Reads none s [] none
unfolding read
Reads-plain String.[] h = refl
Reads-plain (String.◌∷◌ c s) h = ground (arith, Reads-plain s)

pub Reads-name : (name s : String) → no_tick s ≡ true → Reads (some name) s [] (some (name ⧺ s))
unfolding read
Reads-name name String.[] h = rw append-nil
Reads-name name (String.◌∷◌ c s) h =
    let one = String.◌∷◌ c String.[] in
    let same : (name ⧺ one) ⧺ s ≡ name ⧺ String.◌∷◌ c s =
      rw (append_assoc name one s, cons-append c String.[] s, nil-append s) in
    ground (arith, Reads-name (name ⧺ one) s, same)

-- A text in backquotes is read as one name, whatever plain text stands before and behind it.
pub Reads-quoted :
    (before name after : String)
    → Reads none before [] (some "")
    → no_tick name ≡ true
    → Reads (some name) after (name ∷ []) none
    → Reads none (before ⧺ name ⧺ after) (name ∷ []) none
Reads-quoted before name after opens plain closes =
    let inside : Reads (some "") name [] (some name) =
      rw (nil-append name) at (Reads-name "" name plain) in
    Reads-then none before (name ⧺ after) opens (Reads-then (some "") name after inside closes)

abbrev pub gather {ℓ} : {A : Type ℓ} → (A → List String) → List A → List String
gather names [] = []
gather names (x ∷ xs) = names x ++ gather names xs

-- Joined columns are read column by column.
pub Reads-join {ℓ} :
    {A : Type ℓ} (sep : String) (column : A → String) (names : A → List String) (xs : List A)
    → no_tick sep ≡ true
    → All (λ x. Reads none (column x) (names x) none) xs
    → Reads none (join sep (map column xs)) (gather names xs) none
unfolding join
Reads-join sep column names [] plain h = unfold read in refl
Reads-join sep column names (x ∷ []) plain (h, _) = rw (List.append-nil (names x)) h
Reads-join sep column names (x ∷ y ∷ ys) plain (h, hs) =
    Reads-then none (column x) (sep ⧺ join sep (map column (y ∷ ys))) h (
      Reads-then none sep _ (Reads-plain sep plain) (Reads-join sep column names (y ∷ ys) plain hs))
