-- ===== src/Redis/Lists/Fifo.antt =====
-- redis_func.c: the calls on lists against queues by name.
use crawler.Base.{
  ℕ, ◌≡◌, refl, Bool, true, Option, none, some, List, [], ◌∷◌, ◌++◌, length, if◌then◌else◌,
}
use crawler.Base.Word.{u32}
use crawler.Head.Fields.{cstr, equal}
use crawler.Redis.Lists.{
  ListCommand, cmd_llen, cmd_rpush, cmd_lpop, ListReply, count, text, other_list_reply,
  redis_list_length, redis_list_rpush, redis_list_lpop,
}

-- A queue for each key.
abbrev pub Queues : Type 0
Queues = List ℕ → List (List ℕ)

abbrev pub put_queue : List ℕ → List (List ℕ) → Queues → Queues
put_queue key l q = λ g. if equal key g then l else q g

-- What the manual says of the three commands, for a server that carries out each of them; `queues`
-- reads the lists that the server keeps.
pub record IsListServer {Db : Type 0} (command : ListCommand → Db → Option ListReply × Db)
    (queues : Db → Queues) : Type 0 where
  pub llen :
      (key : List ℕ) (db : Db)
      → command (cmd_llen key) db ≡ (some (count (length (queues db key))), db)
  pub rpush :
      (key value : List ℕ) (db : Db)
      → (n : ℕ) × (db' : Db) × (command (cmd_rpush key value) db ≡ (some (count n), db'))
        × (queues db' ≡ put_queue key (queues db key ++ (value ∷ [])) (queues db))
  pub lpop_empty :
      (key : List ℕ) (db : Db)
      → queues db key ≡ []
      → command (cmd_lpop key) db ≡ (some other_list_reply, db)
  pub lpop_first :
      (key value : List ℕ) (rest : List (List ℕ)) (db : Db)
      → queues db key ≡ value ∷ rest
      → (db' : Db) × (command (cmd_lpop key) db ≡ (some (text value), db'))
        × (queues db' ≡ put_queue key rest (queues db))

-- The calls that the program makes, and what they return.
pub data Call : Type 0 where
  list_length : List ℕ → Call
  list_rpush : List ℕ → List ℕ → Call
  list_lpop : List ℕ → Call

pub data Answer : Type 0 where
  length_is : Option ℕ → Answer
  pushed : Bool → Answer
  popped : Option (List ℕ) → Answer

-- The abstract queue: in at the end, out at the front.
abbrev pop_first : List ℕ → List (List ℕ) → Queues → Answer × Queues
pop_first key [] q = (popped none, q)
pop_first key (value ∷ rest) q = (popped (some (cstr value)), put_queue key rest q)

unfoldable pub queue_step : Call → Queues → Answer × Queues
queue_step (list_length key) q = (length_is (some (u32 (length (q key)))), q)
queue_step (list_rpush key value) q = (pushed true, put_queue key (q key ++ (value ∷ [])) q)
queue_step (list_lpop key) q = pop_first key (q key) q

unfoldable pub queue_run : List Call → Queues → List Answer
queue_run [] q = []
queue_run (c ∷ cs) q = (queue_step c q).0 ∷ queue_run cs (queue_step c q).1

module _ {Db : Type 0} (command : ListCommand → Db → Option ListReply × Db) where
  abbrev as_length : Option ℕ × Db → Answer × Db
  as_length (n, db) = (length_is n, db)

  abbrev as_pushed : Bool × Db → Answer × Db
  as_pushed (rc, db) = (pushed rc, db)

  abbrev as_popped : Option (List ℕ) × Db → Answer × Db
  as_popped (s, db) = (popped s, db)

  -- The code's functions, with memory for the copies.
  unfoldable pub perform : Call → Db → Answer × Db
  perform (list_length key) db = as_length (redis_list_length command key db)
  perform (list_rpush key value) db = as_pushed (redis_list_rpush command key value db)
  perform (list_lpop key) db = as_popped (redis_list_lpop command true key db)

  unfoldable pub perform_all : List Call → Db → List Answer
  perform_all [] db = []
  perform_all (c ∷ cs) db = (perform c db).0 ∷ perform_all cs (perform c db).1

module _ {Db : Type 0} (command : ListCommand → Db → Option ListReply × Db) (queues : Db → Queues)
    (law : IsListServer command queues) where
  -- One call answers as the queue does, and leaves the queue's state.
  abbrev Refines : Call → Db → Type 0
  Refines c db =
      ((perform command c db).0 ≡ (queue_step c (queues db)).0)
      × (queues (perform command c db).1 ≡ (queue_step c (queues db)).1)

  lpop-Refines :
      (key : List ℕ) (db : Db) (l : List (List ℕ)) → queues db key ≡ l → Refines (list_lpop key) db
  unfolding perform queue_step redis_list_lpop
  lpop-Refines key db [] e = rw (law.lpop_empty key db e, e) (refl, refl)
  lpop-Refines key db (value ∷ rest) e =
      let (db', run, after) = law.lpop_first key value rest db e in rw (run, e) (refl, after)

  perform-Refines : (c : Call) (db : Db) → Refines c db
  unfolding perform queue_step redis_list_length redis_list_rpush
  perform-Refines (list_length key) db = rw (law.llen key db) (refl, refl)
  perform-Refines (list_rpush key value) db =
      let (n, db', run, after) = law.rpush key value db in rw run (refl, after)
  perform-Refines (list_lpop key) db = lpop-Refines key db (queues db key) refl

  -- Whatever calls follow one another, they return what first-in-first-out queues return that start
  -- with the lists of the server: lengths as 32 bits, and texts up to their first NUL.
  pub perform_all-queue_run :
      (cs : List Call) (db : Db) → perform_all command cs db ≡ queue_run cs (queues db)
  unfolding perform_all queue_run
  perform_all-queue_run [] db = refl
  perform_all-queue_run (c ∷ cs) db =
      let (answer, after) = perform-Refines c db in
      rw (answer, perform_all-queue_run cs (perform command c db).1, after) refl
