-- ===== src/Lib.antt =====
-- Robot Brain is the cognitive layer of a robot. A scheduler takes tasks from a priority queue and runs
-- each as a command of the runtime. The runtime drives a graph of nodes: the robot perceives, decides
-- by reflex or by a language model, validates each call, executes it, observes and reflects. A call
-- that needs the operator leaves a checkpoint, which an answer resumes. Below it stand the robot, whose
-- adapter clamps every command, the navigation providers, and a teleoperation session, which gives one
-- operator at a time the control of the robot and cancels the navigation first.
--
-- Files, with the parts of robot_brain/ that they model:
--   Core      the data: core/world_state.py, core/tasks.py, core/errors.py, llm/base.py, skills/base.py,
--             and what is taken from Python as it is (Core/Builtins)
--   Memory    memory/task_queue.py, as functions on the store of InMemoryTaskStore
--   Safety    safety/policy.py, safety/validator.py, safety/estop.py and skills/registry.py; `validate`
--             is cut into the stages that its comments name
--   Cognition cognition/fast_reflex.py, cognition/go2_reflex_rules.py, planning/catalog.py and
--             llm/output_validator.py
--   Orchestration  orchestration/nodes.py and state.py (Nodes), graph.py and router.py (Graph),
--             cognition/dual_system.py and cognition/planner.py (Nodes/Decide), as a monad over the
--             context of core/context.py (Context)
--   Runtime   runtime/loop.py and runtime/checkpoint.py (State, Records, Loop), and runtime/scheduler.py
--             (Scheduler)
--   Actuation  actuation/unitree.py: the robot with its limits (State, Unitree), and the transport that
--             it is given, with the fake one (Transport)
--   Navigation  navigation/base.py (Base), fake.py (Fake), patrol_controller.py (Patrol), grid.py (Grid),
--             frontier.py (Frontier) and topology.py (Topology)
--   Teleop    teleop/session.py (State, Lease, Drive), and its steps in any order (Steps)
--   Prelude   tests, lists, integers, dictionaries and sorting
--   Tests     the theorems at concrete inputs
--
-- Code that awaits or raises is a function from a state to a result and a state, and the state is kept
-- when it raises. The robot, the sensors, the language model and the clock share one state `E`, and
-- what is called of them is a field of `Adapters` or of a `Skill`; for the robot, the session and the
-- patrol it is `T`, with the records `Transport` and `NavigationClient`. Floats are the abstract type of
-- `Builtins`, of which no law is assumed but where a theorem names it: the limits of the robot rest on
-- the order being asymmetric and transitive. Fresh ids, times and durations are arguments.
--
-- The graph's `while True` runs on fuel: each round counts an iteration, and `select_action` ends a run
-- past `max_loop_iterations`, so that one unit more than that limit is enough, which is what the
-- runtime gives. A flood fill takes as much fuel as there are free cells and two more. The waits of a
-- patrol run on fuel that is an argument, since only the provider decides how long they take. All other
-- loops are over lists.
--
-- Coroutines: of the runtime, no other one runs while a method awaits. The session's steps are what its
-- lock guards, the preemption of the navigation, a turn of the drive loop and a change outside, and they
-- come in any order; a hold has its effects when it begins, and what it reads meanwhile is any velocity.
-- During a patrol others act while it sleeps between two polls.
--
-- Not modelled: the SQLite stores, the construction and closing of a runtime, the built-in skills, the
-- clients of language models, the transports of the robot, perception, the other navigation providers,
-- A*, the cost maps, the service, the gateway and media. The graph is the fallback runner's; LangGraph,
-- which may run the same nodes, is not part of the repository.
mod Prelude
pub mod Core
pub mod Actuation
pub mod Navigation
pub mod Teleop
pub mod Memory
pub mod Safety
pub mod Cognition
pub mod Orchestration
pub mod Runtime
pub mod Tests
