-- ===== src/Http/Router/Answers.antt =====
-- internal/api/http/router.go and middleware.go: what an answer carries, and which answers come with
-- a change of the storage.
use plata_test_task.Prelude.{
  ℕ, Text, codes, text_eq, text_eq_iff, Bool, true, false, ◌≡◌, ◌≢◌, refl, ap, ◌⊎◌, inl, inr,
  Bool-cases, Option, List, [], ◌∷◌, ◌++◌, if◌then◌else◌,
}
use plata_test_task.Errors.{Result}
use plata_test_task.UseCase.Port.{Repository, memory_repository}
use plata_test_task.Memory.State
use plata_test_task.Memory.History.{Reach}
use plata_test_task.Http.Handlers.{Response}
use plata_test_task.Http.Answers.{IsPosted, post_quotes_updates-IsPosted}
use plata_test_task.Http.Middleware.{request_id, recovered, cors_headers, valid_request_id}
use plata_test_task.Http.Middleware.TraceId.{IsTraceId, valid_request_id_iff}
use plata_test_task.Http.Router.{
  Request, Surroundings, Route, to_healthz, to_readyz, to_post_updates, to_get_update,
  to_get_latest, to_none, is_get, post, route, quotes_route, add_headers, recovered_nudge,
  serve_route, with_headers, serve_traced, serve,
}

-- The identifier of a call, and where it comes from.
abbrev pub IsTraced : Text → Text → Text → Type 0
IsTraced inbound fresh id =
    IsTraceId id × ((IsTraceId inbound × (id ≡ inbound)) ⊎ (¬ IsTraceId inbound × (id ≡ fresh)))

request_id-IsTraced :
    (inbound fresh : Text) → IsTraceId fresh → IsTraced inbound fresh (request_id inbound fresh)
unfolding request_id
request_id-IsTraced inbound fresh h = elim (Bool-cases (valid_request_id inbound)) [
  | inl t ↦
      let given = (valid_request_id_iff inbound).0 t in
      rw (t, request_id) (given, inl (given, refl))
  | inr f ↦
      rw (f, request_id) (h, inr (λ given. cc ((valid_request_id_iff inbound).1 given, f), refl))
]

module _ {D : Type 0} (repo : Repository D) (id_string : ℕ → Text) (string_fixed : D → ℕ → Text)
    (parse_id : Text → Option ℕ) (unmatched : Request → Response) (allowed : List Text)
    (env : Surroundings) (q : Request) where
  abbrev pub served : repo.State → (Response × Bool) × repo.State
  served s = serve repo id_string string_fixed parse_id unmatched allowed env q s

  -- Where the fresh identifier is well formed, every answer but a preflight carries, right after the
  -- headers of CORS, the header X-Request-Id with a well-formed identifier: that of the request where
  -- it is well formed, or else the fresh one.
  pub serve-IsTraced :
      (s : repo.State)
      → q.method ≢ codes "OPTIONS"
      → IsTraceId env.fresh_trace
      → (id : Text) × (rest : List (Text × Text)) × ((served s).0.0.headers
          ≡ cors_headers allowed q.origin ++ (codes "X-Request-Id", id) ∷ rest)
        × IsTraced q.trace_id env.fresh_trace id
  unfolding serve serve_traced with_headers add_headers
  serve-IsTraced s no_preflight fresh = elim (Bool-cases (text_eq q.method (codes "OPTIONS"))) [
    | inl t ↦ absurd (no_preflight ((text_eq_iff q.method (codes "OPTIONS")).0 t))
    | inr f ↦ rw (f, serve) (_, _, refl, request_id-IsTraced q.trace_id env.fresh_trace fresh)
  ]

-- The request POST /api/v1/quotes/updates.
abbrev pub IsPost : Text → List Text → Type 0
IsPost method path =
    (method ≡ codes "POST")
    × (path ≡ codes "api" ∷ codes "v1" ∷ codes "quotes" ∷ codes "updates" ∷ [])

-- The outcome of a request: accepted, with a nudge to the dispatcher, or the storage is left alone.
abbrev pub IsServed :
    {D : Type 0}
    → Text
    → List Text
    → State.Repository D
    → (Response × Bool) × State.Repository D
    → Type 0
IsServed method path r ((answer, nudged), after) =
    (IsPost method path × (answer.status ≡ 202) × (nudged ≡ true))
    ⊎ ((nudged ≡ false) × (after ≡ r))

-- A pattern that leads to the creation of updates has matched.
matched :
    (t : Bool) (to : Route)
    → (if t then to else to_none) ≡ to_post_updates
    → (t ≡ true) × (to ≡ to_post_updates)
matched true to e = (refl, e)
matched false to e = absurd (cc (e))

-- The rest of the path below `/api/v1/quotes`.
quotes_route-IsPost :
    (method : Text) (path : List Text)
    → quotes_route method path ≡ to_post_updates
    → (method ≡ codes "POST") × (path ≡ codes "updates" ∷ [])
unfolding quotes_route
quotes_route-IsPost m [] e = absurd (cc (e))
quotes_route-IsPost m (a ∷ []) e =
    let (m_post, a_updates) =
      tests (text_eq a (codes "updates")) (text_eq m post) (text_eq a (codes "latest")) (is_get m)
        e in
    (
      (text_eq_iff m post).0 m_post,
      ap (λ x. x ∷ []) ((text_eq_iff a (codes "updates")).0 a_updates),
    )
  where
    tests :
        (t u v g : Bool)
        → (if t
            then (if u then to_post_updates else to_none)
            else if v
            then (if g then to_get_latest else to_none)
            else to_none)
          ≡ to_post_updates
        → (u ≡ true) × (t ≡ true)
    tests true true v g h = (refl, refl)
    tests true false v g h = absurd (cc (h))
    tests false u true true h = absurd (cc (h))
    tests false u true false h = absurd (cc (h))
    tests false u false g h = absurd (cc (h))
quotes_route-IsPost m (a ∷ id ∷ []) e =
    let (_, f) = matched (text_eq a (codes "updates")) _ e in
    let (_, g) = matched (is_get m) _ f in absurd (other (text_eq id []) g)
  where
    other : (t : Bool) → ¬ ((if t then to_none else to_get_update id) ≡ to_post_updates)
    other true h = cc (h)
    other false h = cc (h)
quotes_route-IsPost m (a ∷ b ∷ c ∷ p) e = absurd (cc (e))

route-IsPost :
    (method : Text) (path : List Text) → route method path ≡ to_post_updates → IsPost method path
unfolding route
route-IsPost m [] e = absurd (cc (e))
route-IsPost m (a ∷ []) e =
    absurd (other (text_eq a (codes "healthz")) (text_eq a (codes "readyz")) (is_get m) e)
  where
    other :
        (t u g : Bool)
        → ¬ (
            (if t
              then (if g then to_healthz else to_none)
              else if u
              then (if g then to_readyz else to_none)
              else to_none)
            ≡ to_post_updates)
    other true u true h = cc (h)
    other true u false h = cc (h)
    other false true true h = cc (h)
    other false true false h = cc (h)
    other false false g h = cc (h)
route-IsPost m (a ∷ b ∷ []) e = absurd (cc (e))
route-IsPost m (a ∷ b ∷ c ∷ rest) e =
    let (t, f) = matched (text_eq a (codes "api")) _ e in
    let (u, g) = matched (text_eq b (codes "v1")) _ f in
    let (v, h) = matched (text_eq c (codes "quotes")) _ g in
    let (is_post, below) = quotes_route-IsPost m rest h in
    (
      is_post,
      rw
          (
            (text_eq_iff a (codes "api")).0 t,
            (text_eq_iff b (codes "v1")).0 u,
            (text_eq_iff c (codes "quotes")).0 v,
            below,
          )
          refl,
    )

IsServed-of_IsPosted :
    {D : Type 0} (method : Text) (path : List Text) (r : State.Repository D)
    (x : Result (Response × Bool) × State.Repository D)
    → IsPosted r x
    → IsPost method path
    → IsServed method path r (recovered_nudge x.0, x.1)
unfolding recovered_nudge recovered
IsServed-of_IsPosted method path r (_, after) (answer, nudged, e, inl (accepted, told)) post_there =
    rw e (inl (post_there, accepted, told))
IsServed-of_IsPosted method path r (_, after) (answer, nudged, e, inr (_, untold, same))
      post_there =
    rw e (inr (untold, same))

module _ {D : Type 0} (zero_value : D) (id_string : ℕ → Text) (string_fixed : D → ℕ → Text)
    (parse_id : Text → Option ℕ) (unmatched : Request → Response) (env : Surroundings)
    (q : Request) where
  serve_route-IsServed :
      (to : Route) (r : State.Repository D)
      → Reach r
      → (to ≡ to_post_updates → IsPost q.method q.path)
      → IsServed q.method q.path r (
          serve_route
            (memory_repository zero_value)
            id_string
            string_fixed
            parse_id
            unmatched
            env
            q
            to
            r)
  unfolding serve_route
  serve_route-IsServed to_healthz r h posts = inr (refl, refl)
  serve_route-IsServed to_readyz r h posts = inr (refl, refl)
  serve_route-IsServed (to_get_update id) r h posts = inr (refl, refl)
  serve_route-IsServed to_get_latest r h posts = inr (refl, refl)
  serve_route-IsServed to_none r h posts = inr (refl, refl)
  serve_route-IsServed to_post_updates r h posts =
      IsServed-of_IsPosted q.method q.path r _
        (post_quotes_updates-IsPosted zero_value id_string r env.update_id env.now q.content q.key
          h)
        (posts refl)

  -- Over the in-process storage, in a state that its methods reach, and whatever the mux answers where
  -- no pattern matches: a request either is POST /api/v1/quotes/updates, is answered with 202, and
  -- nudges the dispatcher, or it nudges nobody and leaves the storage as it was.
  pub serve-IsServed :
      (allowed : List Text) (r : State.Repository D)
      → Reach r
      → IsServed q.method q.path r (
          serve
            (memory_repository zero_value)
            id_string
            string_fixed
            parse_id
            unmatched
            allowed
            env
            q
            r)
  unfolding serve serve_traced with_headers add_headers
  serve-IsServed allowed r h = elim (Bool-cases (text_eq q.method (codes "OPTIONS"))) [
    | inl t ↦ rw (t, serve) (inr (refl, refl))
    | inr f ↦
        rw (f, serve)
          (serve_route-IsServed (route q.method q.path) r h (route-IsPost q.method q.path))
  ]
