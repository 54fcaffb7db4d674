-- ===== src/Web/Ready.antt =====
-- internal/web/server.go: health and ready. What a check answers within its time is a parameter,
-- and so is the order in which the answers of the checks, which run side by side, arrive.
pub mod Reports
use dong_rag.Base.{
  ℕ, Bool, true, false, ◌&&◌, Option, none, some, List, [], ◌∷◌, if◌then◌else◌, insert, GoError,
  plain_error, Text, codes,
}
use dong_rag.Worker.Life.{Life, ready}

-- A check that is not configured, or what it answers.
abbrev pub Probe : Type 0
Probe = Option (Option GoError)

pub record Health : Type 0 where
  pub postgres_health : Probe
  -- `s.Store.Pool.Ping`, where there is a store.
  pub ping : Probe
  pub embedding_health : Probe
  pub llm_health : Probe
  pub reranker_health : Probe
  pub worker_ready : Option Bool
  pub worker : Option Life

-- `checkResult`
abbrev pub CheckResult : Type 0
CheckResult = Text × Option GoError

abbrev pub or_probe : Probe → Probe → Probe
or_probe none other = other
or_probe (some e) other = some e

abbrev pub check_error : Probe → Option GoError
check_error none = some (plain_error (codes "health check is not configured"))
check_error (some e) = e

abbrev pub check : Text → Probe → CheckResult
check name probe = (name, check_error probe)

abbrev pub check_reranker : Probe → List CheckResult
check_reranker none = []
check_reranker (some e) = check (codes "reranker") (some e) ∷ []

unfoldable pub check_results : Health → List CheckResult
check_results s =
    check (codes "postgres") (or_probe s.postgres_health s.ping)
    ∷ check (codes "embedding") s.embedding_health
    ∷ check (codes "llm") s.llm_health
    ∷ check_reranker s.reranker_health

abbrev pub worker_state : Option Bool → Option Life → Bool
worker_state none none = false
worker_state none (some w) = ready w
worker_state (some b) w = b

pub record Readiness : Type 0 where
  pub is_ready : Bool
  pub dependencies : List (Text × Text)

abbrev pub state_text : Bool → Text
state_text b = if b then codes "ready" else codes "not_ready"

abbrev pub is_well : Option GoError → Bool
is_well none = true
is_well (some e) = false

-- The loop over the results that arrive.
unfoldable pub receive : List CheckResult → Readiness → Readiness
unfolding insert
receive [] s = s
receive ((name, e) ∷ rs) s = receive rs record {
  is_ready = s.is_ready && is_well e;
  dependencies = insert name (state_text (is_well e)) s.dependencies;
}

abbrev pub before_checks : Health → Readiness
before_checks s =
    let up = worker_state s.worker_ready s.worker in
    record {
      is_ready = up;
      dependencies = (codes "worker", state_text up) ∷ (codes "reranker", codes "disabled") ∷ [];
    }

pub record ReadyReply : Type 0 where
  pub code : ℕ
  pub status : Text
  pub dependencies : List (Text × Text)

abbrev pub ready_reply : Readiness → ReadyReply
ready_reply s = record {
  code = if s.is_ready then 200 else 503;
  status = state_text s.is_ready;
  dependencies = s.dependencies;
}

-- `arrive` is the order in which the channel hands the results over.
unfoldable pub ready_handler : (List CheckResult → List CheckResult) → Health → ReadyReply
unfolding check_results receive
ready_handler arrive s = ready_reply (receive (arrive (check_results s)) (before_checks s))
