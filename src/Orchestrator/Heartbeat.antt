-- ===== src/Orchestrator/Heartbeat.antt =====
-- services/orchestrator/src/orchestrator/heartbeat.py: in each period a kick of every chassis and a
-- heartbeat on the broker. The kicks are inside of the broker's connection.
use battery_lab_sim.Prelude.{
  ℕ, ◌+◌, ◌≡◌, ap, ◌∙◌, sym, Bool, List, [], ◌∷◌, ◌++◌, if◌then◌else◌, Bool-cases, inl, inr,
}
use battery_lab_sim.Orchestrator.Client.{Write, kick_chassis}
use mathlib.Core.List.{append_assoc, append-nil}

-- The writes that chassis took, and the number of heartbeats that the broker took.
pub record Beats : Type 0 where
  pub kicks : List (ℕ × Write)
  pub published : ℕ

-- A period: which chassis answer with an `OSError`, and whether the broker takes the heartbeat.
pub record Period : Type 0 where
  pub fails : ℕ → Bool
  pub publish_ok : Bool

-- One turn of the outer loop: whether the broker accepts the connection, and the periods of it.
pub record BrokerConnection : Type 0 where
  pub accepted : Bool
  pub periods : List Period

-- `for c in cyclers`: an `OSError` is logged.
unfoldable pub kick_cyclers : (ℕ → Bool) → List ℕ → List (ℕ × Write)
unfolding kick_chassis
kick_cyclers fails [] = []
kick_cyclers fails (c ∷ cyclers) =
    let rest = kick_cyclers fails cyclers in if fails c then rest else (c, kick_chassis) ∷ rest

-- The inner loop, which an `MqttError` ends.
unfoldable pub beat : List ℕ → List Period → Beats → Beats
unfolding kick_cyclers
beat cyclers [] b = b
beat cyclers (p ∷ ps) b =
    let kicked = record b { kicks = b.kicks ++ kick_cyclers p.fails cyclers } in
    let rest = beat cyclers ps (record kicked { published = kicked.published + 1 }) in
    if p.publish_ok then rest else kicked

-- `heartbeat_loop`, on its connections.
unfoldable pub heartbeat_loop : List ℕ → List BrokerConnection → Beats → Beats
unfolding beat
heartbeat_loop cyclers [] b = b
heartbeat_loop cyclers (c ∷ cs) b =
    heartbeat_loop cyclers cs (if c.accepted then beat cyclers c.periods b else b)

-- The kicks of periods, up to the first heartbeat that the broker does not take.
unfoldable pub kicks_of : List ℕ → List Period → List (ℕ × Write)
kicks_of cyclers [] = []
kicks_of cyclers (p ∷ ps) =
    let rest = kicks_of cyclers ps in
    kick_cyclers p.fails cyclers ++ (if p.publish_ok then rest else [])

-- The kicks of the connections that the broker accepts.
unfoldable pub all_kicks : List ℕ → List BrokerConnection → List (ℕ × Write)
all_kicks cyclers [] = []
all_kicks cyclers (c ∷ cs) =
    let rest = all_kicks cyclers cs in
    (if c.accepted then kicks_of cyclers c.periods else []) ++ rest

beat-kicks :
    (cyclers : List ℕ) (ps : List Period) (b : Beats)
    → (beat cyclers ps b).kicks ≡ b.kicks ++ kicks_of cyclers ps
unfolding beat kicks_of
beat-kicks cyclers [] b = sym (append-nil b.kicks)
beat-kicks cyclers (p ∷ ps) b =
    let sent = kick_cyclers p.fails cyclers in
    elim (Bool-cases p.publish_ok) [
      | inr e ↦ rw e (ap (λ l. b.kicks ++ l) (sym (append-nil sent)))
      | inl e ↦ rw e (
          beat-kicks cyclers ps (record { kicks = b.kicks ++ sent; published = b.published + 1 })
          ∙ append_assoc b.kicks sent (kicks_of cyclers ps))
    ]

-- The chassis are kicked in the periods of the connections that the broker accepts, each time all that
-- answer, and never outside of them: while the broker accepts no connection, no chassis is kicked.
pub heartbeat_loop-kicks :
    (cyclers : List ℕ) (cs : List BrokerConnection) (b : Beats)
    → (heartbeat_loop cyclers cs b).kicks ≡ b.kicks ++ all_kicks cyclers cs
unfolding heartbeat_loop all_kicks
heartbeat_loop-kicks cyclers [] b = sym (append-nil b.kicks)
heartbeat_loop-kicks cyclers (c ∷ cs) b = elim (Bool-cases c.accepted) [
  | inr e ↦ rw e (heartbeat_loop-kicks cyclers cs b)
  | inl e ↦ rw e (
      heartbeat_loop-kicks cyclers cs (beat cyclers c.periods b)
      ∙ ap (λ l. l ++ all_kicks cyclers cs) (beat-kicks cyclers c.periods b)
      ∙ append_assoc b.kicks (kicks_of cyclers c.periods) (all_kicks cyclers cs))
]
