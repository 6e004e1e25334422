-- ===== src/Collection/Validity.antt =====
-- What `CollectionWindowSpec.__post_init__` (trainer/grfpo/collection_store.py) accepts.
use verl_vla.Common.{◌%◌, ◌≤◌, ◌<◌, ◌≡◌, ◌↔◌, ◌⊎◌, true, false, arith, ok}
use verl_vla.Common.Sets.{member}
use verl_vla.Collection.Spec.{
  CollectionWindowSpec, check_counts, check_names, post_init, Float, finite, is_empty,
}

-- The counts make sense, and the closing modes do not contradict each other.
pub record HasCounts (s : CollectionWindowSpec) : Type 0 where
  pub run_id : is_empty s.run_id ≡ false
  pub one_component : member b'/' s.run_id ≡ false
  pub update : 0 < s.intended_update
  pub size : s.group_size ≡ 8
  pub minimum : 1 ≤ s.minimum_accepted_groups
  pub target : s.minimum_accepted_groups ≤ s.target_accepted_groups
  pub maximum : s.target_accepted_groups ≤ s.max_candidate_groups
  pub one_mode : s.complete_round_after_target ≡ true → s.drain_candidate_budget ≡ false
  pub round : s.complete_round_after_target ≡ true → 0 < s.candidate_round_size
  pub whole :
      s.complete_round_after_target ≡ true → s.max_candidate_groups % s.candidate_round_size ≡ 0

-- A positive finite float.
abbrev IsPositive : Float → Type 0
IsPositive (finite micros) = 0 < micros
IsPositive _ = ⊥

pub record HasNames (s : CollectionWindowSpec) : Type 0 where
  pub source :
      (s.group_reward_source ≡ "binary_success") ⊎ (s.group_reward_source ≡ "process_score")
  pub criterion :
      (s.informative_group_criterion ≡ "binary_success")
      ⊎ (s.informative_group_criterion ≡ "full_success_mixed")
      ⊎ (s.informative_group_criterion ≡ "reward_variance")
  pub variance :
      s.informative_group_criterion ≡ "reward_variance" → s.group_reward_source ≡ "process_score"
  pub reduction :
      (s.accepted_group_reduction ≡ "group_equal") ⊎ (s.accepted_group_reduction ≡ "task_equal")
  pub state_limit : IsPositive s.raw_state_abs_limit
  pub objective : (s.actor_objective ≡ "fpo") ⊎ (s.actor_objective ≡ "flow_grpo")
  pub noise_level : IsPositive s.flow_grpo_noise_level

check_counts_iff : (s : CollectionWindowSpec) → (check_counts s ≡ ok tt) ↔ HasCounts s
unfolding check_counts
check_counts_iff s = ground arith

check_names_iff : (s : CollectionWindowSpec) → (check_names s ≡ ok tt) ↔ HasNames s
unfolding check_names
check_names_iff s = ground arith

-- The spec's constructor raises nothing exactly when the counts make sense, the closing modes do not
-- contradict each other and the named alternatives and floats are among those supported.
pub post_init_iff : (s : CollectionWindowSpec) → (post_init s ≡ ok tt) ↔ (HasCounts s × HasNames s)
unfolding post_init
post_init_iff s = ground (arith, check_counts_iff s, check_names_iff s)
