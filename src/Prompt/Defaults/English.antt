-- ===== src/Prompt/Defaults/English.antt =====
-- internal/prompt/prompt.go: the English built-in templates.
use next_now_x.Prelude.{◌++◌, Str, List, [], ◌∷◌}
use next_now_x.Strings.Utf8.{encode}
use Prim.Native.String.{String}

lines : List String → Str
unfolding encode
lines [] = []
lines (s ∷ ss) = encode s ++ b'\n' ∷ lines ss

-- `defaultDesignTemplate`.
unfoldable pub english_design : Str
unfolding lines
english_design = lines (
    "Design Next Now X task {{task_id}} of feature {{feature_id}}." ∷ "" ∷ "Title: {{task_title}}"
    ∷ "Scope: {{task_scope}}" ∷ ""
    ∷ "Next Now X is a local CLI that tracks tasks and the dependencies between them."
    ∷ "Run `nnx --help` and `nnx <command> --help` for its exact surface."
    ∷ "Next Now X runs on this machine only, so nobody reading the repository can see it."
    ∷ "Keep it out of what the repository carries: no code comment, commit message, or pull request"
    ∷ "may mention Next Now X, its identifiers, or its commands."
    ∷ "Resolve what you can on your own: investigate whatever the repository, its conventions, or the"
    ∷ "attached material can answer, and ask the user only about the decisions that would change the shape"
    ∷ "of the design and that no investigation settles. Wait for that answer before you build the plan"
    ∷ "around it. Leave local implementation choices to the implementation step, and write everything else"
    ∷ "into the plan as a stated assumption." ∷ ""
    ∷ "1. Mark the task as being designed before anything else."
    ∷ "   - `nnx task update {{task_id}} --status designing`"
    ∷ "2. Read the task and the work it depends on." ∷ "   - `nnx task {{task_id}}`"
    ∷ "   - `nnx graph {{feature_id}}`"
    ∷ "   The other tasks in that graph carry their own scope: rely on their result, do not design it here."
    ∷ "   A dependency the graph does not show yet goes in as `nnx dependency add BLOCKER_TASK_ID {{task_id}}`."
    ∷ "3. Read the reference material attached in Next Now X before you decide anything."
    ∷ "   Documents hang off the task, off its feature, and off the project that feature belongs to,"
    ∷ "   and any of them may carry the requirements this scope has to meet."
    ∷ "   - `nnx document --task {{task_id}}` and `nnx document --feature {{feature_id}}`"
    ∷ "   - `nnx feature {{feature_id}}` names the project, then `nnx document --project PROJECT_ID`"
    ∷ "   - `nnx document get DOCUMENT_ID` prints a stored document; one that points at a URL or a"
    ∷ "     local file prints that locator instead, so open it yourself."
    ∷ "4. Investigate the repository and decide how the scope above should be built."
    ∷ "5. Register the resulting plan on the task."
    ∷ "   Write the plan to a file in a temporary directory outside the repository, register that file,"
    ∷ "   and delete it afterwards. A plan left inside the repository ends up committed by the next step."
    ∷ "   - `nnx plan set {{task_id}} --file PATH`"
    ∷ "   Write the plan in the language the repository's own documents and agent instructions use."
    ∷ "   Registering the plan is what presents the task as designed, so leave the status alone afterwards."
    ∷ "" ∷ "Design only: leave the implementation and the pull request to the next step." ∷ [])

-- `defaultImplementationTemplate`.
unfoldable pub english_implementation : Str
unfolding lines
english_implementation = lines (
    "Implement Next Now X task {{task_id}} of feature {{feature_id}}." ∷ ""
    ∷ "Title: {{task_title}}" ∷ "Scope: {{task_scope}}" ∷ ""
    ∷ "Next Now X is a local CLI that tracks tasks and the dependencies between them."
    ∷ "Run `nnx --help` and `nnx <command> --help` for its exact surface."
    ∷ "Next Now X runs on this machine only, so nobody reading the repository can see it."
    ∷ "Keep it out of what the repository carries: no code comment, commit message, or pull request"
    ∷ "may mention Next Now X, its identifiers, or its commands."
    ∷ "Nobody is watching this run, so do not ask questions. Where the plan leaves something undecided,"
    ∷ "take the option you can defend and report it as a stated assumption." ∷ ""
    ∷ "1. Read the task, the work it depends on, and its registered plan."
    ∷ "   - `nnx task {{task_id}}`" ∷ "   - `nnx graph {{feature_id}}`"
    ∷ "   - `nnx plan {{task_id}}`"
    ∷ "   That last command fails when no plan was registered. That is not an error to fix: settle the"
    ∷ "   approach yourself from the title, the scope, and the material below, and report it as a stated"
    ∷ "   assumption. Do not register a plan."
    ∷ "2. Read the reference material attached in Next Now X before you write any code."
    ∷ "   Documents hang off the task, off its feature, and off the project that feature belongs to,"
    ∷ "   and any of them may carry the requirements this scope has to meet."
    ∷ "   - `nnx document --task {{task_id}}` and `nnx document --feature {{feature_id}}`"
    ∷ "   - `nnx feature {{feature_id}}` names the project, then `nnx document --project PROJECT_ID`"
    ∷ "   - `nnx document get DOCUMENT_ID` prints a stored document; one that points at a URL or a"
    ∷ "     local file prints that locator instead, so open it yourself."
    ∷ "3. Mark the task as being worked on before you change anything."
    ∷ "   - `nnx task update {{task_id}} --status in_progress`"
    ∷ "4. Implement the plan, or the approach you settled on, staying inside the scope above."
    ∷ "   Branch from the base the work actually belongs on rather than from main or master by default."
    ∷ "   A task whose blocker is still open belongs on that blocker's branch, so the two pull requests stack."
    ∷ "5. Record the result in Next Now X."
    ∷ "   - Work that lands as a pull request: open it against the base you branched from,"
    ∷ "     then run `nnx pr attach {{task_id}} PULL_REQUEST_URL`."
    ∷ "     Its state then follows the pull request, so do not set the status by hand."
    ∷ "   - Work without a pull request: run `nnx task update {{task_id}} --status completed` once it is done."
    ∷ "" ∷ "Report what you changed and anything the plan did not cover." ∷ [])

-- `defaultBatchTemplate`.
unfoldable pub english_batch : Str
unfolding lines
english_batch = lines (
    "Implement the Next Now X tasks of feature {{feature_id}} listed below." ∷ ""
    ∷ "Next Now X is a local CLI that tracks tasks and the dependencies between them."
    ∷ "Run `nnx --help` and `nnx <command> --help` for its exact surface."
    ∷ "Next Now X runs on this machine only, so nobody reading the repository can see it."
    ∷ "Keep it out of what the repository carries, in your work and in every SubAgent's: no code comment,"
    ∷ "commit message, or pull request may mention Next Now X, its identifiers, or its commands."
    ∷ "Nobody is watching this run, so neither you nor any SubAgent asks questions. Where the material"
    ∷ "leaves something undecided, take the option you can defend and report it as a stated assumption."
    ∷ "" ∷ "Tasks:" ∷ "{{task_list}}" ∷ ""
    ∷ "1. Read the feature graph so you know how the listed tasks relate to the rest of the work."
    ∷ "   - `nnx graph {{feature_id}}`"
    ∷ "2. Hand every task to its own SubAgent: one task per SubAgent, and never two tasks to the same one."
    ∷ "   Each SubAgent works in a fresh git worktree of its own: SubAgents sharing a checkout"
    ∷ "   commit each other's half-finished edits."
    ∷ "   Each SubAgent takes its instructions from Next Now X rather than from you."
    ∷ "   - It runs `nnx prompt TASK_ID --kind implementation` for the task it was given and follows"
    ∷ "     the prompt that prints. The flag matters: without it a task that has no registered plan is"
    ∷ "     handed the design prompt and the task is designed instead of implemented."
    ∷ "   - It reports what it changed and anything the prompt did not cover."
    ∷ "   Tasks the graph shows as independent may run in parallel."
    ∷ "   A task that depends on another task of this list is implemented after that task is finished,"
    ∷ "   and its pull request is stacked on the pull request of the task it depends on."
    ∷ "   Branch from the base the work belongs on rather than from main or master by default."
    ∷ "3. Wait for every SubAgent and read what each one reported."
    ∷ "   A task whose SubAgent failed stays unfinished: report it instead of implementing it yourself."
    ∷ "   Whatever depends on it stays unstarted as well, because its base is not there." ∷ ""
    ∷ "Report each task's outcome separately, including the ones that failed." ∷ [])

-- `defaultBatchDesignTemplate`.
unfoldable pub english_batch_design : Str
unfolding lines
english_batch_design = lines (
    "Design the Next Now X tasks of feature {{feature_id}} listed below." ∷ ""
    ∷ "Next Now X is a local CLI that tracks tasks and the dependencies between them."
    ∷ "Run `nnx --help` and `nnx <command> --help` for its exact surface."
    ∷ "Next Now X runs on this machine only, so nobody reading the repository can see it."
    ∷ "Keep it out of what the repository carries, in your work and in every SubAgent's: no code comment,"
    ∷ "commit message, or pull request may mention Next Now X, its identifiers, or its commands."
    ∷ "Nobody is watching this run, so neither you nor any SubAgent asks questions. Where the material"
    ∷ "leaves something undecided, take the option you can defend and report it as a stated assumption."
    ∷ "" ∷ "Tasks:" ∷ "{{task_list}}" ∷ ""
    ∷ "1. Read the feature graph so you know how the listed tasks relate to the rest of the work."
    ∷ "   - `nnx graph {{feature_id}}`"
    ∷ "2. Hand every task to its own SubAgent: one task per SubAgent, and never two tasks to the same one."
    ∷ "   Each SubAgent works in a fresh git worktree of its own: SubAgents sharing a checkout"
    ∷ "   commit each other's half-finished edits."
    ∷ "   Each SubAgent takes its instructions from Next Now X rather than from you."
    ∷ "   - It runs `nnx prompt TASK_ID --kind design` for the task it was given and follows the"
    ∷ "     prompt that prints."
    ∷ "   - That prompt tells it to ask the user about decisions that shape the design. Nobody is here to"
    ∷ "     answer, so it writes those into the plan as stated assumptions instead."
    ∷ "   - It ends by registering the plan with `nnx plan set TASK_ID --file PATH`."
    ∷ "     It writes no production code and opens no pull request."
    ∷ "   - It reports what it decided and anything the prompt did not cover."
    ∷ "   Tasks the graph shows as independent may run in parallel."
    ∷ "   A task that depends on another task of this list is designed after that task's plan is"
    ∷ "   registered, so its own design can rely on what that plan settles."
    ∷ "3. Wait for every SubAgent and read what each one reported."
    ∷ "   A task whose SubAgent failed stays undesigned: report it instead of designing it yourself."
    ∷ "   Whatever depends on it stays undesigned as well, because the plan it would build on is missing."
    ∷ "" ∷ "Design only: leave the implementation and the pull requests to a later step."
    ∷ "Report each task's outcome separately, including the ones that failed." ∷ [])
