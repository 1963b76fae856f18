-- ===== src/Queues.antt =====
-- The lists that the backend keeps in Redis: the job queue and the queue of failed jobs
-- (backend/infra/queues.py) and the buffer of streamed events (backend/infra/stream_buffer.py).
use web3_real_estate.Base.{
  ℕ, suc, ◌+◌, ◌-◌, ◌≤◌, ◌≡◌, ◌⊎◌, Bool, true, false, ◌&&◌, leb, ltb, if◌then◌else◌, Option, none,
  some, List, [], ◌∷◌, ◌++◌,
}
use web3_real_estate.Base.Text.{Text}
use web3_real_estate.Base.Text
use web3_real_estate.Base.Lists.{take}
use mathlib.Core.List.{reverse}
pub mod Fifo
pub mod Replay

-- The keys: the tick queue, the dead letters, the orchestration queue and the buffer of each trace.
pub data Key : Type 0 where
  main dlq orchestration : Key
  streambuf : ℕ → Key

-- The answer of a call, or none if it raised, and the server after it.
abbrev pub Reply : Type 0 → Type 0 → Type 0
Reply S A = Option A × S

-- The commands of Redis that the backend sends, on lists of texts. `rpop` is BRPOP, which answers
-- none when it times out.
pub record Redis (S : Type 0) : Type 0 where
  pub lpush : Key → Text → S → Reply S (Unit {0})
  pub ltrim : Key → ℕ → S → Reply S (Unit {0})
  pub rpop : Key → S → Reply S (Option Text)
  pub lrange : Key → ℕ → S → Reply S (List Text)
  pub llen : Key → S → Reply S ℕ

-- What Redis documents of them: `items` is the list at a key, its head first. `ltrim k n` keeps the
-- elements 0 to n - 1, `lrange k n` answers them. A push or a pop that raises was carried out or not.
pub record IsRedis {S : Type 0} (r : Redis S) (items : Key → S → List Text) : Type 0 where
  pub pushed :
      (k : Key) (x : Text) (s : S)
      → (r.lpush k x s).0 ≡ some tt
      → items k (r.lpush k x s).1 ≡ x ∷ items k s
  pub push_raised :
      (k : Key) (x : Text) (s : S)
      → (r.lpush k x s).0 ≡ none
      → (items k (r.lpush k x s).1 ≡ items k s) ⊎ (items k (r.lpush k x s).1 ≡ x ∷ items k s)
  pub popped :
      (k : Key) (x : Text) (s : S)
      → (r.rpop k s).0 ≡ some (some x)
      → items k s ≡ items k (r.rpop k s).1 ++ x ∷ []
  pub pop_empty :
      (k : Key) (s : S) → (r.rpop k s).0 ≡ some none → items k (r.rpop k s).1 ≡ items k s
  pub pop_raised :
      (k : Key) (s : S)
      → (r.rpop k s).0 ≡ none
      → (items k (r.rpop k s).1 ≡ items k s)
        ⊎ ((x : Text) × (items k s ≡ items k (r.rpop k s).1 ++ x ∷ []))
  pub trimmed :
      (k : Key) (n : ℕ) (s : S)
      → (r.ltrim k n s).0 ≡ some tt
      → items k (r.ltrim k n s).1 ≡ take n (items k s)
  pub ranged :
      (k : Key) (n : ℕ) (s : S) (l : List Text)
      → (r.lrange k n s).0 ≡ some l
      → l ≡ take n (items k s)

-- `json.dumps` and `json.loads` for the values of one kind.
pub record Json (V : Type 0) : Type 0 where
  pub dumps : V → Text
  pub loads : Text → Option V

abbrev pub did : {A : Type 0} → Option A → Bool
did none = false
did (some a) = true

abbrev pub at_least : ℕ → ℕ → ℕ
at_least low n = if leb low n then n else low

-- `max(1, min(limit, 500))`
unfoldable pub read_limit : ℕ → ℕ
read_limit limit = at_least 1 (if leb limit 500 then limit else 500)

module _ {S V : Type 0} (r : Redis S) (json : Json V) where
  -- `enqueue_autonomous_tick`, with the queue enabled
  unfoldable pub enqueue_autonomous_tick : V → S → Bool × S
  enqueue_autonomous_tick job s =
      let (answer, s') = r.lpush main (json.dumps job) s in (did answer, s')

  -- `brpop_autonomous_job`: a text that is no JSON raises, and the worker sees no job.
  unfoldable pub brpop_autonomous_job : S → Option V × S
  brpop_autonomous_job s =
      let (answer, s') = r.rpop main s in
      (
        elim answer as (λ _. Option V) [
          | none ↦ none
          | some none ↦ none
          | some (some raw) ↦ json.loads raw
        ],
        s',
      )

  -- `push_dlq`: a failed push ends it, the trim may fail too.
  unfoldable pub push_dlq : V → S → S
  push_dlq failed s =
      let (answer, s') = r.lpush dlq (json.dumps failed) s in
      elim answer as (λ _. S) [ none ↦ s' | some _ ↦ (r.ltrim dlq 500 s').1 ]

  -- `queue_depths`: one failure makes both unknown.
  unfoldable pub queue_depths : S → Option (ℕ × ℕ) × S
  queue_depths s =
      let (ticks, s') = r.llen main s in
      elim ticks as (λ _. Option (ℕ × ℕ) × S) [
        | none ↦ (none, s')
        | some n ↦
            let (failed, s'') = r.llen dlq s' in
            elim failed as (λ _. Option (ℕ × ℕ) × S) [
              | none ↦ (none, s'')
              | some m ↦ (some (n, m), s'')
            ]
      ]

  unfoldable pub orchestration_stub_depth : S → Option ℕ × S
  orchestration_stub_depth s = r.llen orchestration s

  -- A body of more than 16384 characters is cut, and an ellipsis put at its end.
  unfoldable pub body_of : V → Text
  body_of event =
      let body = json.dumps event in
      if ltb 16384 (Text.length body) then Text.take 16000 body ++ 8230 ∷ [] else body

  -- `record_stream_payload`: the pipeline answers none if a command of it raised. The time to live
  -- of the key is not modelled.
  unfoldable pub record_stream_payload : ℕ → ℕ → V → S → S
  record_stream_payload max_events trace event s =
      let (answer, s') = r.lpush (streambuf trace) (body_of event) s in
      elim answer as (λ _. S) [
        | none ↦ s'
        | some _ ↦ (r.ltrim (streambuf trace) (at_least 10 max_events) s').1
      ]

  -- The items that are JSON, oldest first
  unfoldable pub decoded : List Text → List V
  decoded [] = []
  decoded (x ∷ xs) =
      let rest = decoded xs in elim (json.loads x) [ none ↦ rest | some v ↦ v ∷ rest ]

  unfoldable pub read_stream_buffer : ℕ → ℕ → S → List V × S
  read_stream_buffer trace limit s =
      let (answer, s') = r.lrange (streambuf trace) (read_limit limit) s in
      (elim answer as (λ _. List V) [ none ↦ [] | some raw ↦ decoded (reverse raw) ], s')
