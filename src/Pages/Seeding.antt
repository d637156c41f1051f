-- ===== src/Pages/Seeding.antt =====
-- The first tasks of a run: `_seed` of src/draftly/orchestration/page_workflow/node.py. The planned
-- tasks come as they are after their ids were set to their paths.
use draftly_agent_backend.Prelude.{
  ℕ, String, Option, none, some, is_empty, if◌then◌else◌, List, [], ◌∷◌, map, append_str, Json,
  Items, Fields, str, int, array, end, field,
}
use draftly_agent_backend.Pages.Rows.{NewPage, TaskType}
use draftly_agent_backend.Pages.Query.{Query, pure, ◌>>=◌, ◌>>◌}
use draftly_agent_backend.Pages.States.{create_pages}
use draftly_agent_backend.Pages.Tasks.{enqueue_task}

-- What `_seed` reads of a `DocumentationTask`; `dump` and `evidence` are its `model_dump` and that of
-- its evidence, in the schema's library.
pub record DocumentationTask : Type 0 where
  pub path : String
  pub action : String
  pub dump : Json
  pub evidence : Items

abbrev pub new_page : DocumentationTask → NewPage
new_page t = record { page_id = t.path; path = t.path; action = t.action }

-- `if repository: write_input["repository"] = repository`
abbrev pub write_input : Option String → DocumentationTask → Fields
write_input none t = field "task" t.dump end
write_input (some repository) t =
    field "task" t.dump
      (if is_empty repository then end else field "repository" (str repository) end)

abbrev pub evaluate_input : DocumentationTask → Fields
evaluate_input t =
    field "task" t.dump (field "evidence" (array t.evidence) (field "attempt" (int 1) end))

-- The loop over the tasks, at the time `now`.
unfoldable pub enqueue_each :
    String → String → Option String → ℕ → List DocumentationTask → Query (Unit {0})
unfolding enqueue_task ◌>>=◌
enqueue_each run org repository now [] = pure tt
enqueue_each run org repository now (t ∷ ts) = do
  let write_id = append_str "write:" (append_str t.path ":1")
  let evaluate_id = append_str "evaluate:" (append_str t.path ":1")
  enqueue_task run write_id org TaskType.write (some t.path) (some 1) [] (write_input repository t)
      now
  enqueue_task run evaluate_id org TaskType.evaluate (some t.path) (some 1) (write_id ∷ [])
      (evaluate_input t) now
  enqueue_each run org repository now ts

-- `_seed`
unfoldable pub seed :
    String → String → Option String → ℕ → List DocumentationTask → Query (Unit {0})
unfolding create_pages enqueue_each ◌>>=◌
seed run org repository now tasks =
    create_pages run org (map new_page tasks) >> enqueue_each run org repository now tasks
