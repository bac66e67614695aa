-- ===== src/Lib.antt =====
-- send-to-influx collects readings of home devices into InfluxDB and runs controls that switch
-- devices on the strength of them. This library models the core of a control, which is what is
-- decided in a cycle and what is commanded, the buffer that points wait in for InfluxDB, and the
-- supervisor that runs the controls.
--
-- The parts, and how they meet:
-- * A rule (toinflux/rules.py) is an expression over named numbers. `tokenise` cuts its text,
--   `_Parser` builds a tree, `Rule.evaluate` gives it a number. Rules is the model: Rules/Chars the
--   regular expressions, Rules/Tokens `tokenise`, Rules/Syntax the nodes and the table of
--   functions, Rules/Parser the methods of `_Parser` under their names (`negative` is `unary`,
--   `call_of` is `_call`, a loop has its name with `_loop`), Rules/Evaluate `evaluate`, Rules/Height
--   how deep it recurses, Rules/Rule
--   `parse_rule`.
-- * The schedule (toinflux/schedule.py, model Schedule) says whether a moment lies in a control's
--   active period.
-- * The gate (toinflux/gating.py, model Gating) joins the enabled flag, the schedule and the rule
--   `enable_when` to a decision, with the edges between acting and not. Its owner calls `closed`
--   once the command of a closing edge has been applied. The guard (Gating/Guard) commands the safe
--   state at the start and at the end of a control.
-- * The ladder (toinflux/staging.py, model Staging) turns a demand into rungs: `build_ladder`,
--   `bracket`, `cap_ladder` and `reachable_ladder`. Staging/Plan has `plan_window`, which splits a
--   cycle window between two rungs, and Staging/Curve `dwell_level`, the level that a dwell stands
--   for. Staging/Pinned keeps frozen driven devices where they are.
-- * The log (toinflux/transitions.py, model Transitions) remembers when each device was last moved,
--   which freezes it for its minimum, and the loop's memory, which a restart may resume from. The
--   contents of the file are `Stored` values; the clock is an argument.
-- * The writer (toinflux/writer.py, model Writer) keeps points in a spool of segment files until
--   InfluxDB has taken them. Writer/Lines cuts a file into its lines, Writer/Entry has a point
--   and its line, and Writer/Spool the operations under the names of the methods:
--   `start_segment`, `write_entry`, `abandon_segment`, `enforce_limit` (its loop is `trimmed`),
--   `read_spool` (a round of its loop is `read_round`), `read_segment`, `retire`, `set_aside`
--   and, of `_consume`, `consume_to`. The bytes of the files are part of the state.
--   Writer/Spool/Unsent is the abstract view, the queue of entries still to be sent;
--   Writer/Spool/Valid the invariant; Writer/Delivery and Writer/Delivered put the calls
--   together. Writer/Posting has `_by_database`, `_send_run` and what `_post_next_chunk` makes of
--   a chunk, Writer/Passing `_post_next_chunk` over the spool, Writer/Draining `run_until_idle`,
--   Writer/Restart `_open_spool`, `_load_spool` and `_read_pointer`, Writer/Memory a queue in
--   memory, Writer/Submit `submit` and `_append`. The waits of its timer are whole seconds. Posts
--   are numbered, and what the server does with each is a parameter.
-- * Controls has the values of a control document and the helpers of toinflux/controls.py that the
--   schedule and the gate use; Controls/Actuators which devices a document owns.
--
-- * The supervisor (toinflux/supervision.py, model Supervision) runs a process for each control.
--   Supervision has the operations on one child under the names of the methods without their
--   underscore (`start_child` is `start`, `stop_child` is `_stop`, `check_child` the body of the
--   loop of `poll`), Supervision/Turns and Supervision/Passes those over all children
--   (`first_children` in Supervision/Taken is `__init__`, `run_controls` is `run`),
--   Supervision/Requests the queue of requests and `stop_all`, Supervision/Outcomes what the reloads of
--   a pass report, Supervision/Backoff
--   `get_backoff_delay` of sendtoinflux.py. An operation returns the children and a trace of
--   effects. Supervision/Phases says which traces of a control are legal; Kept, Lawful, Reloads and
--   Safety show that the supervisor makes no other, and Life joins the making of a supervisor to
--   its run and end; Watched that it leaves
--   no control alone; SafeCommands what makes a document's devices safe. Controls/Actuators and
--   Controls/Clashes have the rule that two enabled controls share no actuator.
--
-- Errors are values: Rules/Result for RuleSyntaxError with its offset, `Evaluated` for
-- RuleEvaluationError and for any other exception (`crashed`), `Outcome`, `Prepared` and `Planned`
-- for the ConfigErrors of schedule, guard and ladder. The texts of messages are left out.
-- An object that the source changes in place is a record that an operation returns anew; commands
-- that the guard sends through its callback are a list.
--
-- Fuel: `tokenise` has a round for each character and one more, since every round moves on; the
-- parser has 16 units for each token and 9 more, a call or a round of a loop costing one, since it
-- takes a token at least once in sixteen of them; a read of the spool has two rounds for each
-- segment and two more, since a round that does not end the read drops a segment or moves to the
-- first; `run_until_idle` has a pass for each unsent point and one more, since a pass that goes on
-- takes one.
--
-- Parameters, since their code is not here: Python's float (Floats, with what IEEE 754 says of
-- comparisons), its character tables (CharTable), datetime and zoneinfo (Calendar), `str` of a
-- value that is no text (`text_of`), the emptiness of `strip` (`blank`), and the `sum` of floats
-- with the float of a `len`; json (Json), the destinations of the writer (`configured`) and what
-- the server answers (`answers`); for the supervisor `==` of documents (`same`), the delay after
-- failures (`backoff`), `lower`, the order by `repr` (`by_repr`), and the record World: the clock,
-- the stored settings and documents, the pipes and the processes. A float stands for every number
-- of a document, an int too, but an int that is bound to a name may be too large for one. Floats also
-- has `recursion_room`, how many calls of `evaluate` can be inside each other before Python raises a
-- RecursionError, counted as if the list comprehension of a call took no frame of its own (it does before
-- Python 3.12). Examples has an instance of each.
--
-- Not modelled: logging, directories and locks, processes and
-- HTTP; of the supervisor its status, the selector and the sending of the safe commands; the other
-- functions of toinflux/staging.py and toinflux/controls.py; of the writer the sending of live
-- points and of points held in memory, the retry file and the thread; the controller, the inputs,
-- the collectors and the MCP server.
pub mod Prelude
pub mod Floats
pub mod Rules
pub mod Controls
pub mod Schedule
pub mod Gating
pub mod Staging
pub mod Transitions
pub mod Writer
pub mod Supervision
pub mod Examples
