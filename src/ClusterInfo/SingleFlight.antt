-- ===== src/ClusterInfo/SingleFlight.antt =====
-- server/services/ClusterInfoService.ts: how often a cluster is probed.
use dashboards_query_workben.Common.{
  ℕ, none, some, ◌≡◌, refl, ◌≢◌, sym, subst, ◌∙◌, inl, inr, arith, length, get_elem?, eqb,
  Option-cases, Bool-cases,
}
use dashboards_query_workben.Common.Dict.{lookup}
use dashboards_query_workben.ClusterInfo.{
  ClusterEngineInfo, Target, local, data_source, pending, failed, fulfilled, LookupPromise, Service,
  new_service, settle_at, on_probe_ok, on_probe_failed,
}
use dashboards_query_workben.ClusterInfo.Cache.{
  current, call, asked, Step, request, succeed, fail, Reach, here, next, same, same_iff,
  get_elem?-lt-length, get_elem?-concat, get_elem?-settle_at, call_hit, call_miss, current-call,
  current-on_probe_failed, promises-on_probe_failed,
}

-- A probe under way is the shared one of its target; a shared promise is of its target and has not
-- failed.
pub record IsOwned (s : Service) : Type 0 where
  pub owner :
      (p : ℕ) (t : Target) → get_elem? s.promises p ≡ some (asked t pending) → current t s ≡ some p
  pub genuine :
      (t : Target) (p : ℕ)
      → current t s ≡ some p
      → (x : LookupPromise) × (get_elem? s.promises p ≡ some x)
        × (x.target ≡ t)
        × (x.settlement ≢ failed)

request_miss-IsOwned :
    (s : Service) (t : Target) → current t s ≡ none → IsOwned s → IsOwned (call t s).0
request_miss-IsOwned s t miss o = record {
  owner = λ p u h. ground (
    arith,
    call_miss t s miss,
    current-call t u s miss,
    get_elem?-concat s.promises (asked t pending) p,
    same_iff t u,
    o.owner p u,
  );
  genuine = λ u p h. elim (Bool-cases (same t u)) [
    | inl yours ↦ (
      asked t pending,
      ground (
        arith,
        call_miss t s miss,
        current-call t u s miss,
        get_elem?-concat s.promises (asked t pending) p,
      ),
      (same_iff t u).0 yours,
      λ e. cc,
    )
    | inr other ↦
        let kept : current u s ≡ some p = ground (arith, current-call t u s miss) in
        let (x, at, target, good) = o.genuine u p kept in
        (
          x,
          ground (
            arith,
            call_miss t s miss,
            get_elem?-concat s.promises (asked t pending) p,
            get_elem?-lt-length s.promises p at,
          ),
          target,
          good,
        )
  ];
}

request-IsOwned : (s : Service) (t : Target) → IsOwned s → IsOwned (call t s).0
request-IsOwned s t o = elim (Option-cases (current t s)) [
  | inl miss ↦ request_miss-IsOwned s t miss o
  | inr (p, hit) ↦ subst (λ r. IsOwned r.0) (sym (call_hit t s p hit)) o
]

current-on_probe_ok :
    (p : ℕ) (info : ClusterEngineInfo) (u : Target) (s : Service)
    → current u (on_probe_ok p info s) ≡ current u s
unfolding on_probe_ok
current-on_probe_ok p info local s = refl
current-on_probe_ok p info (data_source id) s = refl

promises-on_probe_ok :
    (p : ℕ) (info : ClusterEngineInfo) (s : Service)
    → (on_probe_ok p info s).promises ≡ settle_at p (fulfilled info) s.promises
unfolding on_probe_ok
promises-on_probe_ok p info s = refl

module _ (s : Service) (p : ℕ) (t : Target)
    (at : get_elem? s.promises p ≡ some (asked t pending)) where
  succeed-IsOwned : (info : ClusterEngineInfo) → IsOwned s → IsOwned (on_probe_ok p info s)
  succeed-IsOwned info o = record {
    owner = λ q u h. ground (
      arith,
      current-on_probe_ok p info u s,
      promises-on_probe_ok p info s,
      get_elem?-settle_at p q (fulfilled info) s.promises (asked t pending) at,
      o.owner q u,
    );
    genuine = λ u q h.
        let kept : current u s ≡ some q = sym (current-on_probe_ok p info u s) ∙ h in
        let (x, old, target, good) = o.genuine u q kept in
        let moved = get_elem?-settle_at p q (fulfilled info) s.promises (asked t pending) at in
        elim (Bool-cases (eqb p q)) [
          | inl settled ↦ (
            asked t (fulfilled info),
            ground (arith, promises-on_probe_ok p info s, moved),
            ground arith,
            λ e. cc,
          )
          | inr away ↦ (x, ground (arith, promises-on_probe_ok p info s, moved), target, good)
        ];
  }

  fail-IsOwned : IsOwned s → IsOwned (on_probe_failed p t s)
  fail-IsOwned o = record {
    owner = λ q u h. ground (
      arith,
      current-on_probe_failed p t u s,
      promises-on_probe_failed p t s,
      get_elem?-settle_at p q failed s.promises (asked t pending) at,
      same_iff t u,
      o.owner q u,
      o.owner p t at,
    );
    genuine = λ u q h.
        let kept : current u s ≡ some q = ground (arith, current-on_probe_failed p t u s) in
        let (x, old, target, good) = o.genuine u q kept in
        (
          x,
          ground (
            arith,
            current-on_probe_failed p t u s,
            promises-on_probe_failed p t s,
            get_elem?-settle_at p q failed s.promises (asked t pending) at,
            same_iff t u,
          ),
          target,
          good,
        );
  }

Step-IsOwned : {s u : Service} → Step s u → IsOwned s → IsOwned u
Step-IsOwned {s} (request t) o = request-IsOwned s t o
Step-IsOwned {s} (succeed p t info at) o = succeed-IsOwned s p t at info o
Step-IsOwned {s} (fail p t at) o = fail-IsOwned s p t at o

new_service-IsOwned : IsOwned new_service
unfolding lookup
new_service-IsOwned = record { owner = λ p t h. cc; genuine = none_yet }
  where
    none_yet :
        (t : Target) (p : ℕ)
        → current t new_service ≡ some p
        → (x : LookupPromise) × (get_elem? new_service.promises p ≡ some x)
          × (x.target ≡ t)
          × (x.settlement ≢ failed)
    none_yet local p h = cc
    none_yet (data_source id) p h = cc

pub Reach-IsOwned : {s u : Service} → IsOwned s → Reach s u → IsOwned u
Reach-IsOwned o here = o
Reach-IsOwned o (next r step) = Step-IsOwned step (Reach-IsOwned o r)

-- However calls and answers interleave, two probes of the same cluster that are both under way are
-- one probe.
pub single_flight :
    (s : Service) (p q : ℕ) (t : Target)
    → Reach new_service s
    → get_elem? s.promises p ≡ some (asked t pending)
    → get_elem? s.promises q ≡ some (asked t pending)
    → p ≡ q
single_flight s p q t r at at' =
    let o = Reach-IsOwned new_service-IsOwned r in ground (arith, o.owner p t at, o.owner q t at')

-- The shared promise of a cluster has been answered with this engine.
abbrev pub Answered : Target → ℕ → ClusterEngineInfo → Service → Type 0
Answered t p info s =
    (current t s ≡ some p) × (get_elem? s.promises p ≡ some (asked t (fulfilled info)))

request-Answered :
    (s : Service) (t u : Target) (p : ℕ) (info : ClusterEngineInfo)
    → Answered t p info s
    → Answered t p info (call u s).0
request-Answered s t u p info (cached, at) = elim (Option-cases (current u s)) [
  | inl miss ↦ ground (
    arith,
    call_miss u s miss,
    current-call u t s miss,
    same_iff u t,
    get_elem?-concat s.promises (asked u pending) p,
    get_elem?-lt-length s.promises p at,
  )
  | inr (q, hit) ↦ subst (λ r. Answered t p info r.0) (sym (call_hit u s q hit)) (cached, at)
]

Step-Answered :
    {s v : Service} (t : Target) (p : ℕ) (info : ClusterEngineInfo)
    → IsOwned s
    → Step s v
    → Answered t p info s
    → Answered t p info v
Step-Answered {s} t p info o (request u) a = request-Answered s t u p info a
Step-Answered {s} t p info o (succeed q u other at) a = ground (
  arith,
  current-on_probe_ok q other t s,
  promises-on_probe_ok q other s,
  get_elem?-settle_at q p (fulfilled other) s.promises (asked u pending) at,
)
Step-Answered {s} t p info o (fail q u at) a = ground (
  arith,
  current-on_probe_failed q u t s,
  promises-on_probe_failed q u s,
  get_elem?-settle_at q p failed s.promises (asked u pending) at,
  same_iff u t,
  o.owner q u at,
)

Reach-Answered :
    {s v : Service} (t : Target) (p : ℕ) (info : ClusterEngineInfo)
    → IsOwned s
    → Reach s v
    → Answered t p info s
    → Answered t p info v
Reach-Answered t p info o here a = a
Reach-Answered t p info o (next r step) a =
    Step-Answered t p info (Reach-IsOwned o r) step (Reach-Answered t p info o r a)

-- Once the probe of a cluster has been answered, every later call for that cluster, after any
-- further calls and answers, changes nothing and shares that answer.
pub answer_is_kept :
    (s v : Service) (t : Target) (p : ℕ) (info : ClusterEngineInfo)
    → Reach new_service s
    → Reach s v
    → Answered t p info s
    → (call t v ≡ (v, p)) × (get_elem? v.promises p ≡ some (asked t (fulfilled info)))
answer_is_kept s v t p info r later a =
    let a' = Reach-Answered t p info (Reach-IsOwned new_service-IsOwned r) later a in
    (call_hit t v p a'.0, a'.1)

-- After a probe has failed, the next call for its cluster starts a new probe, which becomes the
-- shared one, and the failed one stays failed.
pub failure_is_retried :
    (s : Service) (t : Target) (p : ℕ)
    → get_elem? s.promises p ≡ some (asked t pending)
    → let v = on_probe_failed p t s in
      let n = length v.promises in
      ((call t v).1 ≡ n)
      × (current t (call t v).0 ≡ some n)
      × (get_elem? (call t v).0.promises n ≡ some (asked t pending))
      × (get_elem? (call t v).0.promises p ≡ some (asked t failed))
failure_is_retried s t p at =
    let v = on_probe_failed p t s in
    let evicted : current t v ≡ none =
      ground (arith, current-on_probe_failed p t t s, same_iff t t) in
    let moved : get_elem? v.promises p ≡ some (asked t failed) = ground (
      arith,
      promises-on_probe_failed p t s,
      get_elem?-settle_at p p failed s.promises (asked t pending) at,
    ) in
    (
      ground (arith, call_miss t v evicted),
      ground (arith, current-call t t v evicted, same_iff t t),
      ground (
        arith,
        call_miss t v evicted,
        get_elem?-concat v.promises (asked t pending) (length v.promises),
      ),
      ground (
        arith,
        call_miss t v evicted,
        get_elem?-concat v.promises (asked t pending) p,
        get_elem?-lt-length v.promises p moved,
      ),
    )
