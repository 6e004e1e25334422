-- ===== src/Lib.antt =====
-- verl_vla trains vision-language-action policies. These files model the parts of it that keep state across
-- processes and steps: the collection of rollout groups on shared storage, the update of a policy from them, the
-- replay pool, the cutting of rollouts into episodes, the executor of actions, the recorders, the launch of a chain,
-- and the batches of candidates and of the actor.
--
-- Collection models src/verl_vla/trainer/grfpo/collection_store.py. Collectors on unrelated nodes claim candidates
-- of a window (`claim_candidate`), renew and release their leases, and publish a group or a rejection
-- (`commit_group`); a watcher abandons the leases of dead owners and skips candidates; `close_if_ready` closes the
-- window, and a trainer reads it with `load_selected_groups`. `Window` is the directory as a record with a field for
-- each kind of file, `Effect` is a single file operation, and each method is a function from the window to its
-- answer and its list of file operations (Leases, Commit, Close); a method that scans a directory sees the
-- operations it has already done. System lets any processes call any methods in any order, and lets each die after a
-- first part of its operations: `Reach`. The window lock makes the methods take turns; the clock's reading, the
-- random token and the digest of the seed are arguments. Names holds the candidate ids, Spec the validation of a
-- spec, and Schedule `candidate_assignment`.
--
-- Collector models the programs that fill a window, in src/verl_vla/workflows/grfpo_fragmented_collection.py:
-- `_candidate_schedule` and `_collector_assignments` (Lanes), `_collect_one_group` (Waves, Group),
-- `_claim_shared_worker_candidate` and `_shared_queue_collector` (Queue), and the legacy lanes of
-- `run_grfpo_collector` (Run). A program is an action on the window that gives a result or raises (World), and each
-- of its calls of the store is a call of Collection. What the other processes do between two calls, the clocks, the
-- simulator with the model (`Machine`) and the operations on batches (`Batches`) are interfaces. The polls of a
-- process that waits run on fuel, and so do the rounds of a collector; as many rounds as there are candidates of its
-- condition are enough. The workers that share one model over pipes are an argument.
--
-- Training models `fit_one_update` of src/verl_vla/trainer/grfpo/spooled_trainer.py and `write_training_receipt`:
-- what survives a dead trainer is the list of its checkpoints and the receipt. What the cluster loads, the groups of
-- the store and the training itself are arguments or parameters. A call under the training lock is a step of
-- `Trained`, cut short after any number of its effects.
--
-- Replay models src/verl_vla/utils/replay_pool.py: a ring of rows for each task and sign (Ring), `add_batch` (Pool),
-- `_allocate_counts_across_tasks` (Allocation), the counts of `sample_batch` (Counts), and `save` and `load`
-- (Storage). The rounds of the allocation run on fuel, the number of samples wanted: every round but the last deals
-- at least one. The capacity is positive where a theorem needs it; a positive-only pool has an unused negative ring
-- here and none in the code.
--
-- Rollout models `EpisodeBuffer.ingest` of src/verl_vla/trainer/sac/episode_buffer.py (Buffer),
-- `_build_sac_transition_masks` of src/verl_vla/utils/data.py on one row (Masks), and its
-- `update_progress_trajectory_counts` on one lane (Progress).
--
-- Executor models the action executors of src/verl_vla/envs/action_executor.py: the preparation of a chunk (Chunk),
-- and `AsyncActionExecutor` as a state with the parts of `exchange`, `reset`, `close` and `_run` that run under its
-- lock (Loop). Steps lets the control thread and one calling thread take these parts in any order: `Execution`. A
-- chunk is the list of its columns; the arithmetic on columns is a parameter, with the exact positions of numpy's
-- `linspace`. Serial is `SerialActionExecutor`, whose `exchange` runs in its caller: the functions that send actions
-- and receive observations are an interface, and `smooth_serial_action_chunks` works on columns of lanes.
--
-- Recorder models src/verl_vla/recorder: the interface of a recorder as commands and answers with `MultiRecorder`
-- (Interface), `AsyncRecorder` as a queue between one calling thread and its worker (Async, and `Runs` in Order),
-- and `LeRobotDatasetRecorder` (Lerobot) over a dataset class that is a parameter. Episodes says what a recorder
-- promises, and what is documented of the dataset class. The exception of `finalize` is shown before the worker is
-- joined, not after.
--
-- Launch models `GRFPOChainLaunchConfig` of src/verl_vla/trainer/grfpo/launch_config.py (Config), and
-- `_configured_task_names` and `collection_window_spec` of src/verl_vla/workflows/grfpo_fragmented_collection.py
-- (Tasks, Window), which make a spec of Collection from it. Python's `strip` is a parameter. The shell scripts
-- between the two pass each setting on as it is.
--
-- Recap models `_compute_return_lookup` of src/verl_vla/workflows/train/recap/compute_return.py and the column of
-- returns that `_ensure_recap_columns_for_file` writes (Returns), with fractions in place of floats. The coefficient
-- is a natural number of millionths, so that its guard has nothing to refuse, and the clip bounds are not positive.
--
-- Batch models `compact_valid_policy_chunks_for_fpo` of src/verl_vla/trainer/grfpo/rollout_batch.py on rows
-- (Compact), the batch sizes of src/verl_vla/trainer/grfpo/grfpo_ray_trainer.py (Size), and
-- `validate_same_condition_group` of src/verl_vla/trainer/grfpo/group_validation.py (Score, Group), with floats as
-- millionths.
--
-- Common holds what the components share: tests on numbers, lists measured by native numbers, dictionaries with
-- number keys, results, sorting, counting and sets. Files and directories are numbered by the candidate index that
-- their names contain.
--
-- Not modelled: tensors and their devices, which appear as rows or as types; ray, the simulators, the networks and
-- the datasets, which the code calls; file formats and atomic replacement of a file, taken as one operation each;
-- the private temporary directory that `commit_group` fills before it takes the lock; the construction of
-- environments and configurations, log lines and locks around a device; the video recorder; drawing rows from the
-- replay pool, and its payloads of versions below 4.
pub mod Common
pub mod Batch
pub mod Collection
pub mod Collector
pub mod Executor
pub mod Launch
pub mod Recap
pub mod Recorder
pub mod Replay
pub mod Rollout
pub mod Training
