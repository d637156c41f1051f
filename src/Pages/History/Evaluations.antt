-- ===== src/Pages/History/Evaluations.antt =====
-- The history of an evaluation: it is immutable.
use draftly_agent_backend.Prelude.{
  String, Bool, ◌≡◌, refl, ◌∙◌, List, [], ◌∷◌, some, ap, Evolves, Evolves_refl, Evolves_trans,
  Evolves_append, Evolves-find_row, find_row,
}
use draftly_agent_backend.Pages.Rows.{EvaluationRow, Database}
use draftly_agent_backend.Pages.Tasks.{claim_ready_tasks}
use draftly_agent_backend.Pages.Evaluations.{at_evaluation}
use draftly_agent_backend.Pages.Operation.{Operation, run}
use draftly_agent_backend.Pages.Operation.Steps.{Steps, run-steps}

abbrev Same : EvaluationRow → EvaluationRow → Type 0
Same e f = f ≡ e

Same_refl : (e : EvaluationRow) → Same e e
Same_refl e = refl

abbrev EvaluationsStay : Database → Database → Type 0
EvaluationsStay a b = Evolves Same a.evaluations b.evaluations

kept : (rows : List EvaluationRow) → Evolves Same rows rows
kept = Evolves_refl Same Same_refl

module _ (collate : String → String → Bool) where
  evaluation_steps : Steps collate EvaluationsStay
  unfolding claim_ready_tasks
  evaluation_steps = record {
    refl_step = λ a. kept a.evaluations;
    trans_step =
        λ a b c. Evolves_trans Same (λ x y z p q. q ∙ p) a.evaluations b.evaluations c.evaluations;
    seed = λ run org p db. kept db.evaluations;
    reserve = λ run page db. kept db.evaluations;
    promotion = λ run page artifact version db. kept db.evaluations;
    approval = λ run page comment db. kept db.evaluations;
    rejection = λ run reason db. kept db.evaluations;
    evaluation = λ row db e. Evolves_append Same Same_refl db.evaluations (row ∷ []);
    projection = λ run result given db. kept db.evaluations;
    revision = λ run page version db. kept db.evaluations;
    queue = λ run task org kind page version dependencies input now db. kept db.evaluations;
    claim = λ locked now run owner lease limit db. kept db.evaluations;
    completion = λ run task owner output db. kept db.evaluations;
    recycling = λ run task owner message db. kept db.evaluations;
    expiry = λ run now db. kept db.evaluations;
    cancelling = λ run db. kept db.evaluations;
  }

  -- The evaluation that is stored for an artifact is the same after any trace.
  pub evaluation_history :
      (ops : List Operation) (db : Database) (run_id artifact : String) {e : EvaluationRow}
      → find_row (at_evaluation run_id artifact) db.evaluations ≡ some e
      → find_row (at_evaluation run_id artifact) (run collate ops db).evaluations ≡ some e
  evaluation_history ops db run_id artifact {e} h =
      let (f, found, same) =
        Evolves-find_row Same (at_evaluation run_id artifact)
          (λ x y s. ap (at_evaluation run_id artifact) s) db.evaluations
          (run collate ops db).evaluations e (run-steps evaluation_steps ops db) h in
      found ∙ ap some same
