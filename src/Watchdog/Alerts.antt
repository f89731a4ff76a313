-- ===== src/Watchdog/Alerts.antt =====
-- services/watchdog/src/watchdog/alerts.py: the alert sink. PostgreSQL and the MQTT broker answer by
-- the functions `db` and `mqtt_up` of the number of the call; what they took is in the state. An insert
-- may raise a `PostgresError`, which is caught, or another exception, which is not: the pool raises an
-- `OSError` if the database does not answer.
pub mod Conservation
use battery_lab_sim.Prelude.{
  ℕ, suc, ◌+◌, String, Bool, true, false, Option, List, [], ◌∷◌, ◌++◌, ltb, if◌then◌else◌, length,
}
use battery_lab_sim.Prelude.Attempt.{
  Attempt, Failure, postgres_error, os_error, other_error, returned, raised,
}

pub data Severity : Type 0 where
  info warning critical : Severity

pub record Alert : Type 0 where
  pub severity : Severity
  pub source : String
  pub message : String
  pub chassis_id : Option ℕ
  pub channel_idx : Option ℕ

abbrev pub retry_queue_cap : ℕ
retry_queue_cap = 1000

-- The sink's queue, and the rows and messages that have left the process.
pub record Sink : Type 0 where
  pub retry : List Alert
  pub rows : List Alert
  pub published : List Alert
  pub db_calls : ℕ
  pub mqtt_calls : ℕ

abbrev pub is_critical : Severity → Bool
is_critical critical = true
is_critical _ = false

abbrev pub tail_of : List Alert → List Alert
tail_of [] = []
tail_of (a ∷ r) = r

-- `deque.append` with `maxlen`: a full queue drops its oldest entry.
unfoldable pub push_bounded : List Alert → Alert → List Alert
push_bounded q a = if ltb (length q) retry_queue_cap then q ++ a ∷ [] else tail_of q ++ a ∷ []

abbrev pub db_answered : Sink → Sink
db_answered s = record s { db_calls = s.db_calls + 1 }

-- An insert stores the row and returns, raises and stores nothing, or raises after the database has
-- committed the row, if the connection breaks then.
pub data DbAnswer : Type 0 where
  stored : DbAnswer
  refused committed : Failure → DbAnswer

abbrev pub add_row : Alert → Sink → Sink
add_row alert s = record s { rows = s.rows ++ alert ∷ [] }

-- What `_insert_db` makes of an exception
abbrev pub on_failure : Failure → Attempt Bool
on_failure postgres_error = returned false
on_failure os_error = raised os_error
on_failure other_error = raised other_error

-- `_insert_db` on the answer of the database
abbrev pub insert_on : DbAnswer → Alert → Sink → Attempt Bool × Sink
insert_on stored alert s = (returned true, db_answered (add_row alert s))
insert_on (refused e) alert s = (on_failure e, db_answered s)
insert_on (committed e) alert s = (on_failure e, db_answered (add_row alert s))

-- After the insert of the first alert of the queue: the loop goes on, breaks, or raises.
abbrev pub after_first : Attempt Bool → Sink → Attempt (Unit {0}) × Sink → Attempt (Unit {0}) × Sink
after_first (returned true) stopped rest = rest
after_first (returned false) stopped rest = (returned tt, stopped)
after_first (raised e) stopped rest = (raised e, stopped)

-- `if not db_ok: self._retry.append(alert)`
abbrev pub after_insert : Alert → Attempt Bool × Sink → Attempt (Unit {0}) × Sink
after_insert alert (returned true, s) = (returned tt, s)
after_insert alert (returned false, s) =
    (returned tt, record s { retry = push_bounded s.retry alert })
after_insert alert (raised e, s) = (raised e, s)

-- What follows a part of `emit`, unless that raised.
abbrev pub and_then :
    Attempt (Unit {0}) × Sink → (Sink → Attempt (Unit {0}) × Sink) → Attempt (Unit {0}) × Sink
and_then (returned x, s) f = f s
and_then (raised e, s) f = (raised e, s)

module _ (db : ℕ → DbAnswer) (mqtt_up : ℕ → Bool) where
  -- `_insert_db`
  unfoldable pub insert_db : Alert → Sink → Attempt Bool × Sink
  insert_db alert s = insert_on (db s.db_calls) alert s

  -- The `while self._retry` loop, on the queue that is left.
  unfoldable pub drain : List Alert → Sink → Attempt (Unit {0}) × Sink
  unfolding insert_db
  drain [] s = (returned tt, record s { retry = [] })
  drain (a ∷ queue) s =
      let (done, s') = insert_db a s in
      let rest = drain queue s' in after_first done (record s' { retry = a ∷ queue }) rest

  unfoldable pub publish : Alert → Sink → Sink
  publish alert s =
      if mqtt_up s.mqtt_calls
      then record s { published = s.published ++ alert ∷ []; mqtt_calls = s.mqtt_calls + 1 }
      else record s { mqtt_calls = s.mqtt_calls + 1 }

  unfoldable pub store : Alert → Sink → Attempt (Unit {0}) × Sink
  unfolding insert_db push_bounded
  store alert s = after_insert alert (insert_db alert s)

  -- `if alert.severity == "critical"`
  unfoldable pub publish_critical : Alert → Sink → Attempt (Unit {0}) × Sink
  unfolding publish
  publish_critical alert s =
      (returned tt, (if is_critical alert.severity then publish alert s else s))

  -- `AlertSink.emit`
  unfoldable pub emit : Alert → Sink → Attempt (Unit {0}) × Sink
  unfolding drain store publish_critical
  emit alert s = and_then (and_then (drain s.retry s) (store alert)) (publish_critical alert)
