-- ===== src/Orchestration/Context.antt =====
-- The state that the nodes of the graph share (robot_brain/core/context.py), and the parts of it that
-- stand outside the modelled code. `E` is the state of those: the robot, the sensors, the language
-- model and the clock. Code is a state and exception monad over it.
use robot_brain.Prelude.{
  ℕ, String, Option, List, [], ◌∷◌, ◌++◌, last, keep, ◌==◌, string_eq, nat_beq, if◌then◌else◌,
}
use robot_brain.Core.Builtins.{Builtins}
use robot_brain.Core.Results.{Result, ok, raise}
use robot_brain.Core.World.{Observation, WorldState}
use robot_brain.Core.Calls.{ToolCall}
use robot_brain.Core.Settings.{Settings}
use robot_brain.Safety.Skills.{SkillRegistry}

pub data Role : Type 0 where
  user assistant system : Role

-- memory/conversation.py. Metadata and time, which no modelled code reads, are left out.
pub record ConversationMessage : Type 0 where
  pub thread_id : String
  pub role : Role
  pub content : String
  pub message_type : String

-- memory/world_state.py.
pub record WorldStateSnapshot (B : Builtins) : Type 0 where
  pub state : WorldState B
  pub reason : String
  pub thread_id : Option String

-- memory/long_term.py.
pub record Experience : Type 0 where
  pub objective : String
  pub outcome : String
  pub summary : String

pub record Context (B : Builtins) (E : Type 0) : Type 0 where
  pub world : WorldState B
  pub env : E
  pub short_term : List String
  pub long_term : List Experience
  pub conversations : List ConversationMessage
  pub world_states : List (WorldStateSnapshot B)
  pub go2_error_streak : ℕ

-- What the graph calls outside: `observe` of the perception adapter, `plan` of the language model
-- (from the command, the world, the names of the offered tools, the memories and the conversation),
-- the search of the long-term store, the clock, and the texts that Python prints for an observation,
-- a command and a list of names.
pub record Adapters (B : Builtins) (E : Type 0) : Type 0 where
  pub observe : E → Result (Observation B) × E
  pub plan :
      String
      → WorldState B
      → List String
      → List String
      → List (Role × String)
      → E
      → Result (List (ToolCall B)) × E
  pub search : String → ℕ → List Experience → List Experience
  pub now : E → ℕ
  pub show_observation : Observation B → String
  pub show_repr : String → String

-- What a runtime is built with, and does not change.
pub record Setup (B : Builtins) (E : Type 0) : Type 0 where
  pub settings : Settings B
  pub skills : SkillRegistry B E
  pub adapters : Adapters B E
  -- The `capacity` of `ShortTermMemory`.
  pub capacity : ℕ

abbrev pub M : Builtins → Type 0 → Type 0 → Type 0
M B E A = Context B E → Result A × Context B E

module _ {B : Builtins} {E : Type 0} {A : Type 0} where
  abbrev pub pure : A → M B E A
  pure a c = (ok a, c)

module _ {B : Builtins} {E : Type 0} {A C : Type 0} where
  infixl 5 ◌>>=◌
  abbrev pub ◌>>=◌ : M B E A → (A → M B E C) → M B E C
  m >>= f = λ c. let (r, c') = m c in elim r [ ok a ↦ f a c' | raise t ↦ (raise t, c') ]

module _ {B : Builtins} {E : Type 0} {C : Type 0} where
  infixl 5 ◌>>◌
  abbrev pub ◌>>◌ : M B E (Unit {0}) → M B E C → M B E C
  m >> n = m >>= λ _. n

-- `deque(maxlen=capacity).append`: at the capacity the oldest entry goes.
unfoldable pub remember : ℕ → String → List String → List String
remember capacity entry entries = last capacity (entries ++ entry ∷ [])

-- `list(entries)[-limit:]`, where a limit of 0 takes everything.
unfoldable pub recent : ℕ → List String → List String
recent limit entries = if nat_beq limit 0 then entries else last limit entries

-- `InMemoryConversationStore.recent_messages`.
unfoldable pub recent_messages : String → ℕ → List ConversationMessage → List ConversationMessage
recent_messages thread_id limit messages =
    let own = keep (λ m. m.thread_id == thread_id) messages in
    if nat_beq limit 0 then own else last limit own

module _ {B : Builtins} {E : Type 0} where
  abbrev pub get_context : M B E (Context B E)
  get_context c = (ok c, c)

  abbrev pub modify : (Context B E → Context B E) → M B E (Unit {0})
  modify f c = (ok tt, f c)

  abbrev pub note : Setup B E → String → M B E (Unit {0})
  note setup entry =
      modify (λ c. record c { short_term = remember setup.capacity entry c.short_term })

  abbrev pub save_world : String → Option String → M B E (Unit {0})
  save_world reason thread_id = modify (λ c. record c {
    world_states =
        c.world_states ++ record { state = c.world; reason = reason; thread_id = thread_id } ∷ [];
  })

  abbrev pub set_world : (WorldState B → WorldState B) → M B E (Unit {0})
  set_world f = modify (λ c. record c { world = f c.world })

module _ {B : Builtins} {E A : Type 0} where
  -- An action of the outside.
  abbrev pub outside : (E → Result A × E) → M B E A
  outside action c = let (r, env) = action c.env in (r, record c { env = env })
