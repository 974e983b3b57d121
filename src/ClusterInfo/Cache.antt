-- ===== src/ClusterInfo/Cache.antt =====
-- The cache of probes as a state machine: callers and answers in any order.
use dashboards_query_workben.Common.{
  ℕ, zero, suc, Bool, true, false, Option, none, some, List, [], ◌∷◌, ◌++◌, if◌then◌else◌, ◌==◌,
  eqb, ◌≡◌, refl, ◌↔◌, arith, length, get_elem?, eq_iff, ◌<◌,
}
use dashboards_query_workben.Common.Dict.{lookup, lookup-insert, lookup-delete}
use dashboards_query_workben.ClusterInfo.{
  ClusterEngineInfo, Target, local, data_source, Settlement, pending, failed, LookupPromise,
  Service, start, get_version, get_data_source_info, settle_at, on_probe_ok, on_probe_failed,
}

-- The promise that a call for the target would share.
abbrev pub current : Target → Service → Option ℕ
current local s = s.info_promise
current (data_source id) s = lookup id s.data_source_info_cache

abbrev pub call : Target → Service → Service × ℕ
call local s = get_version s
call (data_source id) s = get_data_source_info id s

abbrev pub asked : Target → Settlement → LookupPromise
asked t r = record { target = t; settlement = r }

-- Callers arrive and probes answer, in any order.
pub data Step (s : Service) : Service → Type 0 where
  request : (t : Target) → Step s (call t s).0
  succeed :
      (p : ℕ) (t : Target) (info : ClusterEngineInfo)
      → get_elem? s.promises p ≡ some (asked t pending)
      → Step s (on_probe_ok p info s)
  fail :
      (p : ℕ) (t : Target)
      → get_elem? s.promises p ≡ some (asked t pending)
      → Step s (on_probe_failed p t s)

pub data Reach (s : Service) : Service → Type 0 where
  here : Reach s s
  next : {t u : Service} → Reach s t → Step t u → Reach s u

abbrev pub same : Target → Target → Bool
same local local = true
same (data_source i) (data_source j) = i == j
same local (data_source j) = false
same (data_source i) local = false

pub same_iff : (t u : Target) → (same t u ≡ true) ↔ (t ≡ u)
same_iff local local = ground arith
same_iff local (data_source j) = ground arith
same_iff (data_source i) local = ground arith
same_iff (data_source i) (data_source j) = ground (arith, eq_iff i j)

pub get_elem?-lt-length {ℓ} :
    {A : Type ℓ} (xs : List A) (p : ℕ) {x : A} → get_elem? xs p ≡ some x → p < length xs
get_elem?-lt-length [] p h = cc
get_elem?-lt-length (y ∷ xs) zero h = omega arith
get_elem?-lt-length (y ∷ xs) (suc p) h = omega (arith, get_elem?-lt-length xs p h)

pub get_elem?-concat {ℓ} :
    {A : Type ℓ} (xs : List A) (y : A) (p : ℕ)
    → get_elem? (xs ++ y ∷ []) p ≡ (if eqb p (length xs) then some y else get_elem? xs p)
get_elem?-concat [] y zero = refl
get_elem?-concat [] y (suc p) = ground arith
get_elem?-concat (x ∷ xs) y zero = ground arith
get_elem?-concat (x ∷ xs) y (suc p) = ground (arith, get_elem?-concat xs y p)

pub get_elem?-settle_at :
    (p q : ℕ) (r : Settlement) (xs : List LookupPromise) (x : LookupPromise)
    → get_elem? xs p ≡ some x
    → get_elem? (settle_at p r xs) q
      ≡ (if eqb p q then some (record x { settlement = r }) else get_elem? xs q)
get_elem?-settle_at p q r [] x h = cc
get_elem?-settle_at zero zero r (y ∷ xs) x h = ground arith
get_elem?-settle_at zero (suc q) r (y ∷ xs) x h = ground arith
get_elem?-settle_at (suc p) zero r (y ∷ xs) x h = ground arith
get_elem?-settle_at (suc p) (suc q) r (y ∷ xs) x h =
    ground (arith, get_elem?-settle_at p q r xs x h)

pub call_hit : (t : Target) (s : Service) (p : ℕ) → current t s ≡ some p → call t s ≡ (s, p)
unfolding get_version get_data_source_info
call_hit local s p h = rw h
call_hit (data_source id) s p h = ground arith

pub call_miss :
    (t : Target) (s : Service)
    → current t s ≡ none
    → ((call t s).1 ≡ length s.promises) × ((call t s).0.promises ≡ start t s)
unfolding get_version get_data_source_info
call_miss local s h = ground arith
call_miss (data_source id) s h = ground arith

pub current-call :
    (t u : Target) (s : Service)
    → current t s ≡ none
    → current u (call t s).0 ≡ (if same t u then some (length s.promises) else current u s)
unfolding get_version get_data_source_info
current-call local local s h = ground arith
current-call local (data_source j) s h = ground arith
current-call (data_source i) local s h = ground arith
current-call (data_source i) (data_source j) s h =
    ground (arith, lookup-insert i j (length s.promises) s.data_source_info_cache)

pub current-on_probe_failed :
    (p : ℕ) (t u : Target) (s : Service)
    → current u (on_probe_failed p t s) ≡ (if same t u then none else current u s)
unfolding on_probe_failed
current-on_probe_failed p local local s = refl
current-on_probe_failed p local (data_source j) s = refl
current-on_probe_failed p (data_source i) local s = refl
current-on_probe_failed p (data_source i) (data_source j) s =
    lookup-delete i j s.data_source_info_cache

pub promises-on_probe_failed :
    (p : ℕ) (t : Target) (s : Service)
    → (on_probe_failed p t s).promises ≡ settle_at p failed s.promises
unfolding on_probe_failed
promises-on_probe_failed p local s = refl
promises-on_probe_failed p (data_source i) s = refl
