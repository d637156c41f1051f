-- ===== src/Steering/Decisions.antt =====
-- The vocabulary of src/draftly/steering/decisions.py: roles, phases and decisions.
use draftly_agent_backend.Prelude.{String, take_text, Option, none, Bool, true, false}

pub data AgentRole : Type 0 where
  delivery research writer reviewer classifier recommender judge support : AgentRole

pub data SteeringPhase : Type 0 where
  before_tool after_model : SteeringPhase

pub data DecisionKind : Type 0 where
  proceed guide interrupt : DecisionKind

pub record SteeringDecision : Type 0 where
  pub kind : DecisionKind
  pub phase : SteeringPhase
  pub reason : String
  pub role : Option AgentRole
  pub rule : String
  pub interrupt_id : Option String

-- The exceptions of an evaluation: `.get` on a value that is no mapping, and an interrupt of a model.
pub data Crash : Type 0 where
  attribute_error : Crash
  model_cannot_interrupt : Crash

pub data Raises {ℓ} (A : Type ℓ) : Type ℓ where
  returns : A → Raises A
  raises : Crash → Raises A

-- `_clip_reason`
abbrev pub clip_reason : String → String
clip_reason reason = take_text 1000 reason

module _ (phase : SteeringPhase) (reason : String) (role : Option AgentRole) (rule : String) where
  abbrev decide : DecisionKind → SteeringDecision
  decide kind = record {
    kind = kind;
    phase = phase;
    reason = clip_reason reason;
    role = role;
    rule = rule;
    interrupt_id = none;
  }

  -- `SteeringDecision.proceed`
  abbrev pub to_proceed : SteeringDecision
  to_proceed = decide DecisionKind.proceed

  -- `SteeringDecision.guide`
  abbrev pub to_guide : SteeringDecision
  to_guide = decide DecisionKind.guide

-- `SteeringDecision.interrupt`: model steering never interrupts.
abbrev pub to_interrupt :
    SteeringPhase → String → Option AgentRole → String → Raises SteeringDecision
to_interrupt SteeringPhase.after_model reason role rule = raises model_cannot_interrupt
to_interrupt SteeringPhase.before_tool reason role rule =
    returns (decide SteeringPhase.before_tool reason role rule DecisionKind.interrupt)

abbrev pub is_guide : DecisionKind → Bool
is_guide DecisionKind.guide = true
is_guide _ = false

abbrev pub is_interrupt : DecisionKind → Bool
is_interrupt DecisionKind.interrupt = true
is_interrupt _ = false

abbrev pub same_phase : SteeringPhase → SteeringPhase → Bool
same_phase SteeringPhase.before_tool SteeringPhase.before_tool = true
same_phase SteeringPhase.after_model SteeringPhase.after_model = true
same_phase _ _ = false

abbrev pub is_writer : AgentRole → Bool
is_writer AgentRole.writer = true
is_writer _ = false
