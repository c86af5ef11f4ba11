-- ===== src/Lib.antt =====
-- A model of azure-sql-mcp (src/azure_sql_mcp), the typed execution and evidence layer for Azure SQL
-- Database: the parts that decide whether a statement is sent, on which connection, and whether the
-- budget allows it.
--
-- Parts and how they interact. A tool of server.py that changes a database goes through the admin
-- policy (admin_policy.py): it scans the T-SQL text, refuses DROP DATABASE in plain and dynamic
-- SQL, writes an audit line and only then calls an executor. The executor takes a connection from
-- the pool (connection_pool.py). Tuning runs are counted beforehand against the budget of their
-- session in the local store (performance_store.py), which also holds the sessions and candidates
-- of the tuning state machine (tuning_sessions.py). The places of a session's candidates can be
-- reserved there before. Which databases may be tuned or changed stands in a file that
-- database_policy.py loads. Query Store plans to force are chosen by plan_enforcement.py, whose
-- actions go through the admin policy. A query that only reads passes the gate of safe_sql.py.
-- Calls that are safe to repeat go through retry.py. Slots stands on the tables of Tuning, and the
-- module of Query Store plans on the policy of Admin, Allow on the words of ReadOnly, Lineage on
-- its `strip` and on the states of Tuning; the other parts meet in their callers alone, and share
-- here only the helpers under Shared (Raising: an exception or what is returned; Rows: a table with
-- a key; Sorted: a stable sort; Lists, Tests, Text); the examples of Retry take the ASCII digits of
-- Admin.Chars, and ReadOnly its table of characters.
--
-- Admin (admin_policy.py)
--   Chars: characters as code points. Upper case and the classes of letters and digits come from
--     Python's Unicode tables, so they are an instance argument (CharTable); ascii_table is one.
--   Tokens: `_tokenize_sql` and its `_skip_` and `_read_` helpers. The position in the text is the rest
--     of the text. Loops run on fuel, which is the length of the rest; each step reads a character.
--   Expressions, Variables: `_literal_concatenation`, `_literal_prefix`, `_first_argument_expression`,
--     `_qualified_name`, `_update_known_sql_variable` and the like, on lists of tokens.
--   DropDatabase: `_contains_statically_recognizable_drop_database`. Its depth counts down from
--     `_MAX_DYNAMIC_DEPTH`, which bounds the recursion as the source does.
--   Preview, Audit, Execution: `_preview_sql`; the audit lines; `AdminPolicy.preview`, `execute` and
--     `execute_exactly_once` as functions on a world of audit lines and statements sent. An answer of
--     the executor, a time-out or a cancellation, with the text of its error, is an argument.
--   Audit writes are assumed to succeed. SHA-256 and the redaction of messages are parameters.
--
-- Pool (connection_pool.py)
--   Pool: the fields of `ConnectionPool`, with the dictionaries by database as functions, and the parts
--     of its methods between two awaits. Connections are numbers; times are whole milliseconds.
--   Leaks: `note_leaked_connections` and `check_leaked_connections`.
--   Breaker: the circuit breaker over a history of checks, successes and failures.
--   Tasks: a task in `acquire`, `release`, `discard` or `close_all` is the await it stands at (Phase);
--     what the driver or the queue answers is an Event, and `resume` runs it to the next await.
--   Tasks.Step: a step relation on the pool and a list of tasks, so that every interleaving is a run;
--     a cancellation is a step of its own. A thread that still opens a connection after its task was
--     cancelled is not followed: the model counts the pool's slots, and its tasks' connections.
--   Tasks.Balance, Elsewhere, Capacity, Starvation, Fresh, Stranded: the lemmas on runs.
--
-- Budget (performance_store.py)
--   Budget: the rows of `execution_reservations`, what is read of sessions and candidates, and the sums
--     over them. Identifiers, fingerprints and hashed keys are only compared, and are numbers; a time is
--     a number. A method runs in one transaction: an error is a value, and leaves the store as it was.
--   Reserve: `reserve_execution_attempts` and `execution_budget_usage`.
--   Update: `complete_execution_attempts` and `release_execution_attempts`, by the update they share.
--   Ledger, Bound, Limit, Run, Quote, Stored, Replay, Repeat: the lemmas, and runs of any
--     calls.
--
-- ReadOnly (safe_sql.py)
--   ReadOnly: `_lex`. The position in the text is the rest of the text; the loop runs on fuel, which is
--     the length of the text, and each pass reads a character. The lists `code` and `words` have their
--     last piece first.
--   Words: `_code_words`, with the NFKC form as a parameter, and `_check_statement_keywords`.
--   Rules: `_check_text_rules`. Each regular expression is a search over the text; which letters
--     re.IGNORECASE takes for one another is a parameter.
--   Validate: `validate_read_only` and `analyze_read_only`. sqlglot is a parameter (Parser): the
--     statements that it parses, their shape and the nodes of their trees.
--   Pieces, Lexed, Gate, Refused, Batch, Admitted: texts in pieces, and the lemmas. Not modelled:
--     `extract_table_references`.
--
-- Tuning (tuning_sessions.py, performance_contracts.py, performance_store.py)
--   Tuning: `TuningSessionV1` and `TuningCandidateV1`, and the tables that hold them, keys and events.
--     Of a contract the fields are kept on which a decision depends; identifiers, fingerprints, evidence
--     and failure codes are only compared, and are numbers, and so are times.
--   Save, Transactions: `_save_locked`, `_append_event_locked`, the idempotency bindings, and
--     `save_session`, `save_session_and_candidate` and `create_candidate_and_attach`. A method is one
--     transaction: an error is a value, and leaves the store as it was. The parts of an event's key are
--     compared one by one. The order of `list_candidates` is left out.
--   Decide, Results: each method of `TuningSessionStateMachine` between its reads and its save, as a function
--     from what it has read to an error, no change, or the transaction that it asks for. Whether a
--     candidate added in finalist validation has a valid lineage is an argument.
--   Service: a call as a whole, with the replays that it looks for first (`run_call`), and the part
--     behind the replays with all reads from one store (`run_fresh`).
--   Interleaved: a call that reads its session, its candidate and the executions from one store each,
--     and saves to another, with transactions of any callers in between (History.Reach).
--   Asked, Recorded, Decided, Locked, Effect, Committed, History, Still, Limits, Within, Kept,
--     Logs, Replayed, Known, Repeated, Ended, Refused: the lemmas.
--   Create: `create_session`, with the lemmas on it.
--   Not modelled: payloads of events, bindings without a fingerprint, and the checks of the
--     contracts' fields. Reserved slots are in Slots.
--
-- Lease (performance_store.py)
--   Lease: the rows of `index_leases`; `create_index_lease`, `update_index_lease` and
--     `recover_index_lease`. Of the metadata it only matters whether a call has some, and the checks
--     that a text is not empty are left out.
--   Single: runs of any calls, and the lemmas.
--
-- Slots (performance_store.py)
--   Slots: the rows of `candidate_slot_reservations` beside the tables of Tuning, whose methods for
--     saving, keys and events it uses; `reserve_candidate_slot`, `release_candidate_slot`,
--     `create_candidate_and_attach` with and without a slot, `get_idempotent_candidate_creation`.
--     The tokens of `_new_token` and the clock are arguments; an insertion tests both uniqueness
--     constraints of the table.
--   Run: calls one after another, of which some raise. Counts, Taken, Limit, Sound, Promised, Claimed,
--     Honoured: the lemmas.
--
-- Query Store plans (plan_enforcement.py)
--   Module Plan holds `review` and its helpers, from the rows that the two queries return. `sorted` is the stable
--     sort of Shared.Sorted. The scores are floats in the source: a type with an order, a parameter.
--   Actions: `_build_action`, `dry_run_action`, `apply_action` and `tick`, on the world of Admin.
--   Eligible, Ranked, Silent: what a row has to be for an action, and the lemmas.
--
-- Allow (database_policy.py)
--   Allow: a decoded document (Json), `DatabasePolicy` with its validation, `DatabasePolicySet`, the
--     loading of a file and the answers. What reading and decoding a file gives is a function from its
--     path; the keys of an object are distinct. A float is known by what is asked of it.
--   Parsed, Granted, Document, Safe: the lemmas, from an entry to an answer.
--
-- Lineage (candidate_lineage.py)
--   Lineage: the reference to the rewrite that an index child stands on, the two kinds of evidence, and
--     the validators. A value of the metadata is a text, a boolean or any other.
--   Pinned, Proven, Anchored: the lemmas. The sessions of Tuning take its verdict as an argument.
--
-- Retry (retry.py)
--   Retry: the transient codes, the search for one in a message and in the causes of an exception, and
--     `with_retry`. Its loop is recursion on the retries that are left. The function that is tried is
--     one from the number of the attempt to an answer. Delays are whole milliseconds; the random part
--     of a sleep and Python's decimal digits are parameters, and max_retries is not negative. That a
--     sleep is cancelled is not modelled.
--   Attempts, Codes: the lemmas.
--
-- Each part has a module Examples with concrete inputs. Not modelled: the other files, above all the
-- queries on management views and the text of findings, and the rest of performance_store.py; files,
-- logging and the driver are input and output.
pub mod Shared
pub mod Admin
pub mod Pool
pub mod Budget
pub mod Retry
pub mod Tuning
pub mod ReadOnly
pub mod Lease
pub mod Slots
pub mod Plan
pub mod Allow
pub mod Lineage
