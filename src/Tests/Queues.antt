-- ===== src/Tests/Queues.antt =====
-- Runs of the theorems on the lists in Redis, with a server that keeps one list and never fails.
use web3_real_estate.Base.{◌≡◌, refl, ap, Option, none, some, List, [], ◌∷◌, ◌++◌, arith}
use web3_real_estate.Base.Text.{Text}
use web3_real_estate.Base.Text
use web3_real_estate.Base.Lists.{take}
use web3_real_estate.Queues.{Key, Redis, IsRedis, Json, read_limit, read_stream_buffer}
use web3_real_estate.Queues.Fifo.{Op, FifoRun, serve_ops, serve_ops_refines, waiting}
use web3_real_estate.Queues.Replay.{record_all, newest_first, AreShort, read_stream_buffer_latest}
use mathlib.Core.List.{reverse}

abbrev last_of : List Text → Option Text × List Text
last_of [] = (none, [])
last_of (x ∷ []) = (some x, [])
last_of (x ∷ y ∷ l) = let (o, rest) = last_of (y ∷ l) in (o, x ∷ rest)

last_of_lem : (l : List Text) (x : Text) → (last_of l).0 ≡ some x → l ≡ (last_of l).1 ++ x ∷ []
last_of_lem [] x e = absurd (ground (arith, e))
last_of_lem (y ∷ []) x e = ground (arith, e)
last_of_lem (y ∷ z ∷ l) x e = ap (λ r. y ∷ r) (last_of_lem (z ∷ l) x e)

last_of-none : (l : List Text) → (last_of l).0 ≡ none → (last_of l).1 ≡ l
last_of-none [] e = refl
last_of-none (y ∷ []) e = absurd (ground (arith, e))
last_of-none (y ∷ z ∷ l) e = ap (λ r. y ∷ r) (last_of-none (z ∷ l) e)

abbrev popped_of : List Text → Option (Option Text) × List Text
popped_of s = let (o, rest) = last_of s in (some o, rest)

abbrev server : Redis (List Text)
server = record {
  lpush = λ k x s. (some tt, x ∷ s);
  ltrim = λ k n s. (some tt, take n s);
  rpop = λ k s. popped_of s;
  lrange = λ k n s. (some (take n s), s);
  llen = λ k s. (some 0, s);
}

abbrev list_of : Key → List Text → List Text
list_of k s = s

server-IsRedis : IsRedis server list_of
server-IsRedis = record {
  pushed = λ k x s e. refl;
  push_raised = λ k x s e. absurd (ground (arith, e));
  popped = λ k x s e. last_of_lem s x (ground (arith, e));
  pop_empty = λ k s e. last_of-none s (ground (arith, e));
  pop_raised = λ k s e. absurd (ground (arith, e));
  trimmed = λ k n s e. refl;
  ranged = λ k n s l e. ground (arith, e);
}

-- Texts that stand for themselves
abbrev plain : Json Text
plain = record { dumps = λ t. t; loads = λ t. some t }

abbrev calls : List (Op Text)
calls = Op.enqueue (1 ∷ []) ∷ Op.enqueue (2 ∷ []) ∷ Op.take_job ∷ []

serve_ops_refines_example :
    FifoRun plain []
      (serve_ops server plain calls []).0
      (waiting server plain list_of server-IsRedis (serve_ops server plain calls []).1)
serve_ops_refines_example = serve_ops_refines server plain list_of server-IsRedis calls []

abbrev events : List Text
events = (1 ∷ []) ∷ (2 ∷ []) ∷ (3 ∷ []) ∷ []

events-AreShort : AreShort plain events
unfolding Text.length
events-AreShort = (omega arith, (omega arith, (omega arith, tt)))

reads_two :
    (server.lrange (Key.streambuf 9) (read_limit 2) (record_all server plain 10 9 events [])).0
    ≡ some (take (read_limit 2) (record_all server plain 10 9 events []))
reads_two = refl

read_stream_buffer_latest_example :
    (read_stream_buffer server plain 9 2 (record_all server plain 10 9 events [])).0
    ≡ reverse (take (read_limit 2) (newest_first events []))
unfolding read_limit
read_stream_buffer_latest_example =
    read_stream_buffer_latest server plain list_of server-IsRedis 10 9 events [] 2 _ (λ v. refl)
      refl (refl, refl, (refl, refl, (refl, refl, tt))) events-AreShort (omega arith) reads_two
