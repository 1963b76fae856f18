-- ===== src/Queues/Fifo.antt =====
-- The queue of backend/infra/queues.py against a queue that hands out its oldest job.
use web3_real_estate.Base.{
  ◌≤◌, ◌≡◌, refl, ap, ◌∙◌, Bool, true, false, Option, none, some, List, [], ◌∷◌, ◌++◌, arith,
  Option-cases, inl, inr,
}
use web3_real_estate.Base.Text.{Text}
use web3_real_estate.Base.Lists.{length, take, length-take}
use web3_real_estate.Queues.{
  Key, Redis, IsRedis, Json, enqueue_autonomous_tick, brpop_autonomous_job, push_dlq,
}
use mathlib.Core.List.{reverse, reverse-cons, reverse-append}

-- What a client asks, and what it sees: whether a job was taken in, or the job that it gets.
pub data Op (V : Type 0) : Type 0 where
  enqueue : V → Op V
  take_job : Op V

pub data Seen (V : Type 0) : Type 0 where
  queued : Bool → Seen V
  answered : Option V → Seen V

module _ {V : Type 0} (json : Json V) where
  -- A queue of texts, oldest first, and what it may do. A call that says yes has put the job at the
  -- end; one that says no has done so or not. A job that is handed out was the oldest; where none is
  -- handed out, the oldest text is lost at most.
  pub data Fifo : List Text → Op V → Seen V → List Text → Type 0 where
    takes_in :
        (q : List Text) (v : V) → Fifo q (Op.enqueue v) (Seen.queued true) (q ++ json.dumps v ∷ [])
    refuses : (q : List Text) (v : V) → Fifo q (Op.enqueue v) (Seen.queued false) q
    takes_in_unheard :
        (q : List Text) (v : V) → Fifo q (Op.enqueue v) (Seen.queued false) (q ++ json.dumps v ∷ [])
    hands_out :
        (x : Text) (q : List Text) (v : V)
        → json.loads x ≡ some v
        → Fifo (x ∷ q) Op.take_job (Seen.answered (some v)) q
    waits : (q : List Text) → Fifo q Op.take_job (Seen.answered none) q
    loses : (x : Text) (q : List Text) → Fifo (x ∷ q) Op.take_job (Seen.answered none) q

  -- A run of the queue, with what was asked and seen.
  pub data FifoRun : List Text → List (Op V × Seen V) → List Text → Type 0 where
    stop : (q : List Text) → FifoRun q [] q
    step :
        (q q' q'' : List Text) (op : Op V) (seen : Seen V) (rest : List (Op V × Seen V))
        → Fifo q op seen q'
        → FifoRun q' rest q''
        → FifoRun q ((op, seen) ∷ rest) q''

module _ {S V : Type 0} (r : Redis S) (json : Json V) where
  unfoldable pub serve : Op V → S → Seen V × S
  serve (Op.enqueue v) s = let (b, s') = enqueue_autonomous_tick r json v s in (Seen.queued b, s')
  serve Op.take_job s = let (o, s') = brpop_autonomous_job r json s in (Seen.answered o, s')

  -- The calls one after the other, with what the callers see, and the server at the end.
  unfoldable pub serve_ops : List (Op V) → S → List (Op V × Seen V) × S
  serve_ops [] s = ([], s)
  serve_ops (op ∷ ops) s =
      let (seen, s') = serve op s in let (rest, s'') = serve_ops ops s' in ((op, seen) ∷ rest, s'')

module _ {S V : Type 0} (r : Redis S) (json : Json V) (items : Key → S → List Text)
    (redis : IsRedis r items) where
  abbrev pub waiting : S → List Text
  waiting s = reverse (items Key.main s)

  abbrev Does : Op V → S → Seen V × S → Type 0
  Does op s answer = Fifo json (waiting s) op answer.0 (waiting answer.1)

  enqueue_refines : (v : V) (s : S) → Does (Op.enqueue v) s (serve r json (Op.enqueue v) s)
  unfolding serve enqueue_autonomous_tick
  enqueue_refines v s = elim (Option-cases (r.lpush Key.main (json.dumps v) s).0) [
    | inl e ↦ elim (redis.push_raised Key.main (json.dumps v) s e) [
      | inl f ↦ rw (e, f) (Fifo.refuses (waiting s) v)
      | inr f ↦
          rw (e, f, reverse-cons (json.dumps v) (items Key.main s))
            (Fifo.takes_in_unheard (waiting s) v)
    ]
    | inr (_, e) ↦
        rw
          (
            e,
            redis.pushed Key.main (json.dumps v) s e,
            reverse-cons (json.dumps v) (items Key.main s),
          )
          (Fifo.takes_in (waiting s) v)
  ]

  oldest :
      (s : S) (x : Text) (l : List Text)
      → items Key.main s ≡ l ++ x ∷ []
      → waiting s ≡ x ∷ reverse l
  oldest s x l e = ap reverse e ∙ reverse-append l (x ∷ [])

  fetch_refines : (s : S) → Does Op.take_job s (serve r json Op.take_job s)
  unfolding serve brpop_autonomous_job
  fetch_refines s = elim (Option-cases (r.rpop Key.main s).0) [
    | inl e ↦ elim (redis.pop_raised Key.main s e) [
      | inl f ↦ rw (e, f) (Fifo.waits (waiting s))
      | inr (x, f) ↦ rw (e, oldest s x _ f) (Fifo.loses x _)
    ]
    | inr (none, e) ↦ rw (e, redis.pop_empty Key.main s e) (Fifo.waits (waiting s))
    | inr (some x, e) ↦ elim (Option-cases (json.loads x)) [
      | inl g ↦ rw (e, oldest s x _ (redis.popped Key.main x s e), g) (Fifo.loses x _)
      | inr (v, g) ↦ rw (e, oldest s x _ (redis.popped Key.main x s e), g) (Fifo.hands_out x _ v g)
    ]
  ]

  op_refines : (op : Op V) (s : S) → Does op s (serve r json op s)
  op_refines (Op.enqueue v) s = enqueue_refines v s
  op_refines Op.take_job s = fetch_refines s

  -- With a Redis that keeps its laws, whatever jobs are put in and fetched, in whatever order, and
  -- whichever of the calls to Redis fail, the callers see what a first-in first-out queue may do, in which a refused job may still
  -- have been put at the end and an unanswered fetch may have lost the oldest job.
  pub serve_ops_refines :
      (ops : List (Op V)) (s : S)
      → FifoRun json (waiting s) (serve_ops r json ops s).0 (waiting (serve_ops r json ops s).1)
  unfolding serve_ops
  serve_ops_refines [] s = FifoRun.stop (waiting s)
  serve_ops_refines (op ∷ ops) s =
      FifoRun.step (waiting s) _ _ op _ _ (op_refines op s)
        (serve_ops_refines ops (serve r json op s).1)

  -- A failed job that is recorded leaves at most 500 of them, itself the newest.
  push_dlq_bounded :
      (v : V) (s : S)
      → (r.lpush Key.dlq (json.dumps v) s).0 ≡ some tt
      → (r.ltrim Key.dlq 500 (r.lpush Key.dlq (json.dumps v) s).1).0 ≡ some tt
      → (items Key.dlq (push_dlq r json v s) ≡ take 500 (json.dumps v ∷ items Key.dlq s))
        × (length (items Key.dlq (push_dlq r json v s)) ≤ 500)
  unfolding push_dlq
  push_dlq_bounded v s e f =
      let whole : push_dlq r json v s
          ≡ (r.ltrim Key.dlq 500 (r.lpush Key.dlq (json.dumps v) s).1).1 =
        ground (arith, e) in
      rw (whole, redis.trimmed Key.dlq 500 _ f, redis.pushed Key.dlq (json.dumps v) s e)
        (refl, length-take 500 (json.dumps v ∷ items Key.dlq s))
