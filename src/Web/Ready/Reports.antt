-- ===== src/Web/Ready/Reports.antt =====
-- internal/web/server.go: what ready reports, in whatever order the checks answer.
use dong_rag.Base.{
  ◌≡◌, refl, sym, ap, ◌∙◌, Bool, true, false, ◌&&◌, not, Option, none, some, List, [], ◌∷◌, arith,
  Permᴰ, if◌then◌else◌, any, lookup, lookup-insert, Apart, any-perm, Apart-perm, GoError, Text,
  codes, text_eq, text_eq_refl, eq_of_text_eq, text_eq_iff, text_eq_sym,
}
use dong_rag.Web.Ready.{
  Probe, Health, CheckResult, or_probe, check_error, check_reranker, check_results, worker_state,
  Readiness, state_text, is_well, receive, before_checks, ReadyReply, ready_handler,
}

-- The results name different checks.
abbrev same_name : CheckResult → CheckResult → Bool
same_name r q = text_eq r.0 q.0

abbrev Named : List CheckResult → Type 0
Named rs = Apart same_name rs

lookup-perm :
    {xs ys : List CheckResult} (name : Text)
    → Permᴰ xs ys
    → Named xs
    → lookup name xs ≡ lookup name ys
unfolding lookup
lookup-perm name Permᴰ.nil a = refl
lookup-perm name (Permᴰ.cons {a = x} {b = y} {l₁ = xs} {l₂ = ys} e q) (h, a) =
    ground (arith, ap (λ r. r.0) e, ap (λ r. r.1) e, lookup-perm name q a)
lookup-perm name (Permᴰ.swap {a = x} {b = y} {a' = y'} {b' = x'} {l = l} e e') (h, (k, a)) =
    ground (
      arith,
      ap (λ r. r.0) e,
      ap (λ r. r.1) e,
      ap (λ r. r.0) e',
      ap (λ r. r.1) e',
      h,
      text_eq_iff x.0 name,
      text_eq_iff y.0 name,
      text_eq_refl name,
    )
lookup-perm name (Permᴰ.trans q r) a =
    lookup-perm name q a
    ∙ lookup-perm name r (Apart-perm same_name (λ x y. text_eq_sym x.0 y.0) q a)

lookup-none :
    (name : Text) (rs : List CheckResult)
    → any (λ r. text_eq name r.0) rs ≡ false
    → lookup name rs ≡ none
unfolding lookup
lookup-none name [] h = refl
lookup-none name ((n, e) ∷ rs) h = ground (arith, h, text_eq_sym n name, lookup-none name rs)

receive-ready :
    (rs : List CheckResult) (s : Readiness)
    → (receive rs s).is_ready ≡ (s.is_ready && not (any (λ r. not (is_well r.1)) rs))
unfolding receive
receive-ready [] s = ground arith
receive-ready ((name, e) ∷ rs) s = receive-ready rs _ ∙ ground arith

-- What a name stands for after the results.
abbrev after_results : Option (Option GoError) → Option Text → Option Text
after_results none before = before
after_results (some e) before = some (state_text (is_well e))

receive-lookup :
    (name : Text) (rs : List CheckResult) (s : Readiness)
    → Named rs
    → lookup name (receive rs s).dependencies
      ≡ after_results (lookup name rs) (lookup name s.dependencies)
unfolding receive lookup
receive-lookup name [] s a = refl
receive-lookup name ((n, e) ∷ rs) s (h, a) =
    receive-lookup name rs _ a
    ∙ ground (
      arith,
      h,
      lookup-none name rs,
      lookup-insert n name (state_text (is_well e)) s.dependencies,
      eq_of_text_eq n name,
    )

abbrev pub is_up : Probe → Bool
is_up none = false
is_up (some e) = is_well e

abbrev pub is_up_or_absent : Probe → Bool
is_up_or_absent none = true
is_up_or_absent (some e) = is_well e

abbrev pub reranker_text : Probe → Text
reranker_text none = codes "disabled"
reranker_text (some e) = state_text (is_well e)

-- The service can answer.
abbrev pub is_serving : Health → Bool
is_serving s =
    worker_state s.worker_ready s.worker
    && (is_up (or_probe s.postgres_health s.ping)
        && (is_up s.embedding_health && (is_up s.llm_health && is_up_or_absent s.reranker_health)))

abbrev pub Shows : List (Text × Text) → Text → Text → Type 0
Shows dependencies name text = lookup name dependencies ≡ some text

pub record Reports (s : Health) (r : ReadyReply) : Type 0 where
  pub code : r.code ≡ (if is_serving s then 200 else 503)
  pub status : r.status ≡ state_text (is_serving s)
  pub worker :
      Shows r.dependencies (codes "worker") (state_text (worker_state s.worker_ready s.worker))
  pub postgres :
      Shows r.dependencies
        (codes "postgres")
        (state_text (is_up (or_probe s.postgres_health s.ping)))
  pub embedding : Shows r.dependencies (codes "embedding") (state_text (is_up s.embedding_health))
  pub llm : Shows r.dependencies (codes "llm") (state_text (is_up s.llm_health))
  pub reranker : Shows r.dependencies (codes "reranker") (reranker_text s.reranker_health)

is_well-check_error : (p : Probe) → is_well (check_error p) ≡ is_up p
is_well-check_error none = refl
is_well-check_error (some e) = refl

results-Named :
    (a b c : Option GoError) (p : Probe)
    → Named ((codes "postgres", a) ∷ (codes "embedding", b) ∷ (codes "llm", c) ∷ check_reranker p)
unfolding text_eq
results-Named a b c none = (refl, (refl, (refl, tt)))
results-Named a b c (some e) = (refl, (refl, (refl, (refl, tt))))

check_results-Named : (s : Health) → Named (check_results s)
unfolding check_results
check_results-Named s =
    results-Named (check_error (or_probe s.postgres_health s.ping)) (check_error s.embedding_health)
      (check_error s.llm_health) s.reranker_health

any-check_reranker :
    (p : Probe) → any (λ r. not (is_well r.1)) (check_reranker p) ≡ not (is_up_or_absent p)
any-check_reranker none = refl
any-check_reranker (some e) = ground arith

serving :
    (s : Health)
    → (worker_state s.worker_ready s.worker && not (any (λ r. not (is_well r.1)) (check_results s)))
      ≡ is_serving s
unfolding check_results
serving s =
    rw
      (
        is_well-check_error (or_probe s.postgres_health s.ping),
        is_well-check_error s.embedding_health,
        is_well-check_error s.llm_health,
        any-check_reranker s.reranker_health,
      )
      (ground arith)

-- Where the reranker is not configured, it stays as it was before the checks.
reranker_shows :
    (a b c : Option GoError) (p : Probe)
    → after_results
        (lookup
          (codes "reranker")
          ((codes "postgres", a) ∷ (codes "embedding", b) ∷ (codes "llm", c) ∷ check_reranker p))
        (some (codes "disabled"))
      ≡ some (reranker_text p)
unfolding lookup text_eq
reranker_shows a b c none = refl
reranker_shows a b c (some e) = refl

worker_shows :
    (a b c : Option GoError) (p : Probe) (t : Text)
    → after_results
        (lookup
          (codes "worker")
          ((codes "postgres", a) ∷ (codes "embedding", b) ∷ (codes "llm", c) ∷ check_reranker p))
        (some t)
      ≡ some t
unfolding lookup text_eq
worker_shows a b c none t = refl
worker_shows a b c (some e) t = refl

module _ (arrive : List CheckResult → List CheckResult)
    (orders : (rs : List CheckResult) → Permᴰ rs (arrive rs)) (s : Health) where
  received : Readiness
  received = receive (arrive (check_results s)) (before_checks s)

  received-ready : received.is_ready ≡ is_serving s
  unfolding received
  received-ready =
      receive-ready (arrive (check_results s)) (before_checks s)
      ∙ ap (λ b. worker_state s.worker_ready s.worker && not b)
          (sym (any-perm (λ r. not (is_well r.1)) (orders (check_results s))))
      ∙ serving s

  received-lookup :
      (name : Text)
      → lookup name received.dependencies
        ≡ after_results (lookup name (check_results s)) (lookup name (before_checks s).dependencies)
  unfolding received
  received-lookup name =
      let named = check_results-Named s in
      let p = orders (check_results s) in
      receive-lookup name (arrive (check_results s)) (before_checks s)
        (Apart-perm same_name (λ x y. text_eq_sym x.0 y.0) p named)
      ∙ ap (λ o. after_results o (lookup name (before_checks s).dependencies))
          (sym (lookup-perm name p named))

  -- In whatever order the answers of the checks arrive: the reply is 200 and "ready" if the worker
  -- is ready and every check that is made answers without an error, and 503 and "not_ready"
  -- otherwise; a check that is not configured fails, but for the reranker's, which is not made; and
  -- the reply shows of each dependency whether it is ready, and of a reranker that is not
  -- configured that it is disabled.
  pub ready_handler-Reports : Reports s (ready_handler arrive s)
  unfolding ready_handler received check_results lookup text_eq
  ready_handler-Reports = record {
    code = ap (λ b. if b then 200 else 503) received-ready;
    status = ap state_text received-ready;
    worker =
        received-lookup (codes "worker")
        ∙ worker_shows (check_error (or_probe s.postgres_health s.ping))
            (check_error s.embedding_health) (check_error s.llm_health) s.reranker_health
            (state_text (worker_state s.worker_ready s.worker));
    postgres =
        received-lookup (codes "postgres")
        ∙ ap (λ b. some (state_text b)) (is_well-check_error (or_probe s.postgres_health s.ping));
    embedding =
        received-lookup (codes "embedding")
        ∙ ap (λ b. some (state_text b)) (is_well-check_error s.embedding_health);
    llm =
        received-lookup (codes "llm")
        ∙ ap (λ b. some (state_text b)) (is_well-check_error s.llm_health);
    reranker =
        received-lookup (codes "reranker")
        ∙ reranker_shows (check_error (or_probe s.postgres_health s.ping))
            (check_error s.embedding_health) (check_error s.llm_health) s.reranker_health;
  }
