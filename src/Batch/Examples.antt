-- ===== src/Batch/Examples.antt =====
-- Concrete batches and groups.
use verl_vla.Common.{
  ℕ, ◌+◌, ◌%◌, ◌<◌, ◌≡◌, refl, inl, Bool, true, false, List, [], ◌∷◌, length, all, none, some, ok,
  arith, string_discrete,
}
use verl_vla.Collection.Spec.{finite}
use verl_vla.Launch.Tasks.{text_of, same_text}
use verl_vla.Batch.Compact.{Row, Compacted, compact, valid_rows, same_mask}
use verl_vla.Batch.Filled.{compact-ok}
use verl_vla.Batch.Size.{quantized_candidate_batch_size}
use verl_vla.Batch.Score.{Trajectory}
use verl_vla.Batch.Group.{
  GroupConfig, Verdict, validate_same_condition_group, judge, are_distinct, Condition,
}
use verl_vla.Batch.Informative.{IsVaried, validate-informative}

abbrev chunk : Bool → ℕ → Row ℕ
chunk true n = record {
  valid = true;
  loss_weight = finite 1000;
  advantage = finite 5;
  action_valid = true;
  payload = n;
}
chunk false n = record {
  valid = false;
  loss_weight = finite 0;
  advantage = finite 0;
  action_valid = false;
  payload = n;
}

abbrev chunks : List (Row ℕ)
chunks = chunk true 1 ∷ chunk false 2 ∷ chunk true 3 ∷ chunk true 4 ∷ chunk false 5 ∷ []

compact-ok_example :
    (out : Compacted ℕ) × (compact 2 2 chunks ≡ ok out)
    × (length out.rows % 4 ≡ 0)
    × (length out.rows < 3 + 4)
    × (valid_rows out.rows ≡ chunk true 1 ∷ chunk true 3 ∷ chunk true 4 ∷ [])
    × (all same_mask out.rows ≡ true)
    × (out.original_physical_slots ≡ 5)
unfolding valid_rows
compact-ok_example =
    compact-ok 2 2 chunks (omega arith) (omega arith) (refl, (refl, (refl, (refl, (refl, tt)))))
      (omega arith)

quantized-test : quantized_candidate_batch_size 10 50 9 4 ≡ ok 8
unfolding quantized_candidate_batch_size
quantized-test = refl

abbrev trajectory : ℕ → Bool → Trajectory
trajectory seed success = record {
  task_ids = 3 ∷ 3 ∷ [];
  instructions = text_of "fold" ∷ text_of "fold" ∷ [];
  suite_ids = 1 ∷ 1 ∷ [];
  layout_ids = 20 ∷ 20 ∷ [];
  environment_seeds = 7 ∷ 7 ∷ [];
  policy_seeds = seed ∷ seed ∷ [];
  successes = false ∷ success ∷ [];
  scores = none;
}

abbrev group_config : GroupConfig
group_config = record {
  group_size = 3;
  reward_source = "binary_success";
  informative_group_criterion = "full_success_mixed";
  min_partial = 1;
  partial_score_threshold = finite 150000;
  expected_suite_id = some 1;
  allowed_layout_ids = some (19 ∷ 20 ∷ []);
}

abbrev group : List Trajectory
group = trajectory 11 true ∷ trajectory 12 false ∷ trajectory 13 true ∷ []

abbrev key : Condition
key = record {
  task_id = 3;
  instruction = text_of "fold";
  suite_id = 1;
  layout_id = 20;
  environment_seed = 7;
}

abbrev accepted : Verdict
accepted =
    judge group_config group key (11 ∷ 12 ∷ 13 ∷ [])
      (finite 1000000 ∷ finite 0 ∷ finite 1000000 ∷ [])

validate-informative_example :
    IsVaried accepted.reward_vector × (are_distinct accepted.policy_seeds ≡ true)
unfolding validate_same_condition_group string_discrete same_text judge
validate-informative_example =
    validate-informative (λ text. text) group_config group accepted (inl refl) refl refl
