-- ===== src/Prompt/Defaults/Japanese.antt =====
-- internal/prompt/templates_ja.go: the Japanese built-in templates.
use next_now_x.Prelude.{◌++◌, Str, List, [], ◌∷◌}
use next_now_x.Strings.Utf8.{encode}
use Prim.Native.String.{String}

lines : List String → Str
unfolding encode
lines [] = []
lines (s ∷ ss) = encode s ++ b'\n' ∷ lines ss

-- `japaneseDesignTemplate`.
unfoldable pub japanese_design : Str
unfolding lines
japanese_design = lines (
    "feature {{feature_id}} の Next Now X task {{task_id}} を設計する。" ∷ "" ∷ "Title: {{task_title}}"
    ∷ "Scope: {{task_scope}}" ∷ "" ∷ "Next Now X は task と task 同士の依存関係を追跡するローカルの CLI である。"
    ∷ "正確なコマンド体系は `nnx --help` と `nnx <command> --help` で確認する。"
    ∷ "Next Now X はこのマシンの中だけで動くので、リポジトリを読む人からは見えない。"
    ∷ "リポジトリが運ぶものに持ち込まないこと。コードコメント・コミットメッセージ・pull request の"
    ∷ "いずれも Next Now X やその識別子・コマンドに言及してはならない。" ∷ "未確定事項は自分で解消する。リポジトリ・既存の規約・添付資料が答えを持つものは質問せずに"
    ∷ "調査し、調査では決められず設計の形を左右する判断だけをユーザーに質問し、回答を待ってから" ∷ "計画に反映する。局所的な実装判断は実装のステップに委ね、それ以外は根拠を示せる選択肢を"
    ∷ "採り、仮定として明記して計画に書く。" ∷ "" ∷ "1. 何よりも先に、この task を設計中として記録する。"
    ∷ "   - `nnx task update {{task_id}} --status designing`" ∷ "2. task と、それが依存している作業を読む。"
    ∷ "   - `nnx task {{task_id}}`" ∷ "   - `nnx graph {{feature_id}}`"
    ∷ "   その graph にある他の task にはそれぞれの scope がある。結果に依存してよいが、ここで設計しない。"
    ∷ "   graph にまだない依存は `nnx dependency add BLOCKER_TASK_ID {{task_id}}` で登録する。"
    ∷ "3. 何かを決める前に、Next Now X に添付された資料を読む。"
    ∷ "   document は task・その feature・その feature が属する project のそれぞれに付き、"
    ∷ "   どれにもこの scope が満たすべき要件が入っている可能性がある。"
    ∷ "   - `nnx document --task {{task_id}}` と `nnx document --feature {{feature_id}}`"
    ∷ "   - `nnx feature {{feature_id}}` が project を示すので、続けて `nnx document --project PROJECT_ID`"
    ∷ "   - `nnx document get DOCUMENT_ID` は保存済みの document を出力する。URL やローカル"
    ∷ "     ファイルを指す document は locator を出力するだけなので、自分で開く。" ∷ "4. リポジトリを調査し、上記の scope をどう実装するべきか決める。"
    ∷ "5. できあがった計画を task に登録する。" ∷ "   計画はリポジトリの外の一時ディレクトリにファイルとして書き、そのファイルを登録し、"
    ∷ "   登録後に削除する。リポジトリの中に残した計画は次のステップでコミットされてしまう。" ∷ "   - `nnx plan set {{task_id}} --file PATH`"
    ∷ "   計画は、対象リポジトリ自身の文書とエージェント向け指示が使っている言語で書く。"
    ∷ "   計画の登録がこの task を設計済みとして提示するので、その後ステータスは変更しない。" ∷ ""
    ∷ "設計だけを行う。実装と pull request は次のステップに任せる。" ∷ [])

-- `japaneseImplementationTemplate`.
unfoldable pub japanese_implementation : Str
unfolding lines
japanese_implementation = lines (
    "feature {{feature_id}} の Next Now X task {{task_id}} を実装する。" ∷ "" ∷ "Title: {{task_title}}"
    ∷ "Scope: {{task_scope}}" ∷ "" ∷ "Next Now X は task と task 同士の依存関係を追跡するローカルの CLI である。"
    ∷ "正確なコマンド体系は `nnx --help` と `nnx <command> --help` で確認する。"
    ∷ "Next Now X はこのマシンの中だけで動くので、リポジトリを読む人からは見えない。"
    ∷ "リポジトリが運ぶものに持ち込まないこと。コードコメント・コミットメッセージ・pull request の"
    ∷ "いずれも Next Now X やその識別子・コマンドに言及してはならない。" ∷ "この実行を見ている人はいないので、質問はしない。計画が決めていない点があれば、"
    ∷ "根拠を示せる選択肢を採り、仮定として明記して報告する。" ∷ "" ∷ "1. task と、それが依存している作業と、登録済みの計画を読む。"
    ∷ "   - `nnx task {{task_id}}`" ∷ "   - `nnx graph {{feature_id}}`"
    ∷ "   - `nnx plan {{task_id}}`" ∷ "   最後のコマンドは計画が未登録なら失敗する。これは直すべきエラーではない。"
    ∷ "   Title・Scope・以下の資料から自分で方針を決め、仮定として明記して報告する。" ∷ "   計画は登録しない。"
    ∷ "2. コードを書く前に、Next Now X に添付された資料を読む。"
    ∷ "   document は task・その feature・その feature が属する project のそれぞれに付き、"
    ∷ "   どれにもこの scope が満たすべき要件が入っている可能性がある。"
    ∷ "   - `nnx document --task {{task_id}}` と `nnx document --feature {{feature_id}}`"
    ∷ "   - `nnx feature {{feature_id}}` が project を示すので、続けて `nnx document --project PROJECT_ID`"
    ∷ "   - `nnx document get DOCUMENT_ID` は保存済みの document を出力する。URL やローカル"
    ∷ "     ファイルを指す document は locator を出力するだけなので、自分で開く。" ∷ "3. 何かを変更する前に、この task を作業中として記録する。"
    ∷ "   - `nnx task update {{task_id}} --status in_progress`"
    ∷ "4. 上記の scope の内側にとどまって、計画または自分で決めた方針を実装する。"
    ∷ "   既定で main や master から分岐せず、その作業が本来乗るべきベースから分岐する。"
    ∷ "   blocker が未解決の task はその blocker のブランチに乗せ、2 つの pull request を積む。"
    ∷ "5. 結果を Next Now X に記録する。" ∷ "   - pull request として着地する作業: 分岐したベースに対して pull request を開き、"
    ∷ "     `nnx pr attach {{task_id}} PULL_REQUEST_URL` を実行する。"
    ∷ "     その後の状態は pull request に従うので、ステータスを手で設定しない。"
    ∷ "   - pull request を伴わない作業: 終わったら `nnx task update {{task_id}} --status completed` を実行する。"
    ∷ "" ∷ "変更した内容と、計画が扱っていなかった点を報告する。" ∷ [])

-- `japaneseBatchTemplate`.
unfoldable pub japanese_batch : Str
unfolding lines
japanese_batch = lines (
    "feature {{feature_id}} の、以下に挙げる Next Now X task を実装する。" ∷ ""
    ∷ "Next Now X は task と task 同士の依存関係を追跡するローカルの CLI である。"
    ∷ "正確なコマンド体系は `nnx --help` と `nnx <command> --help` で確認する。"
    ∷ "Next Now X はこのマシンの中だけで動くので、リポジトリを読む人からは見えない。"
    ∷ "自分の作業でも各 SubAgent の作業でも、リポジトリが運ぶものに持ち込まないこと。コードコメント・"
    ∷ "コミットメッセージ・pull request のいずれも Next Now X やその識別子・コマンドに言及してはならない。"
    ∷ "この実行を見ている人はいないので、自分も各 SubAgent も質問はしない。資料が決めていない点が" ∷ "あれば、根拠を示せる選択肢を採り、仮定として明記して報告する。" ∷ ""
    ∷ "Tasks:" ∷ "{{task_list}}" ∷ "" ∷ "1. feature の graph を読み、挙がっている task が残りの作業とどう関係するかを把握する。"
    ∷ "   - `nnx graph {{feature_id}}`"
    ∷ "2. 各 task をそれぞれ専用の SubAgent に渡す。1 つの SubAgent に 1 つの task だけを渡し、"
    ∷ "   同じ SubAgent に 2 つの task を渡さない。"
    ∷ "   各 SubAgent はそれぞれ新規の git worktree で作業する。checkout を共有した SubAgent は、"
    ∷ "   互いの書きかけの編集をコミットしてしまう。" ∷ "   各 SubAgent は指示を自分からではなく Next Now X から受け取る。"
    ∷ "   - 渡された task について `nnx prompt TASK_ID --kind implementation` を実行し、"
    ∷ "     表示されたプロンプトに従う。このフラグは必須である。付けないと、計画が未登録の" ∷ "     task には設計プロンプトが渡り、実装ではなく設計が行われる。"
    ∷ "   - 変更した内容と、プロンプトが扱っていなかった点を報告する。" ∷ "   graph 上で独立している task は並行して進めてよい。"
    ∷ "   この一覧の別の task に依存する task は、その task が終わってから実装し、"
    ∷ "   その pull request は依存先の task の pull request に積む。"
    ∷ "   既定で main や master から分岐せず、その作業が本来乗るべきベースから分岐する。" ∷ "3. すべての SubAgent を待ち、それぞれの報告を読む。"
    ∷ "   SubAgent が失敗した task は未完のままにする。自分で実装せずに報告する。" ∷ "   それに依存する task もベースがないので、着手しないままにする。"
    ∷ "" ∷ "各 task の結果を、失敗したものも含めて個別に報告する。" ∷ [])

-- `japaneseBatchDesignTemplate`.
unfoldable pub japanese_batch_design : Str
unfolding lines
japanese_batch_design = lines (
    "feature {{feature_id}} の、以下に挙げる Next Now X task を設計する。" ∷ ""
    ∷ "Next Now X は task と task 同士の依存関係を追跡するローカルの CLI である。"
    ∷ "正確なコマンド体系は `nnx --help` と `nnx <command> --help` で確認する。"
    ∷ "Next Now X はこのマシンの中だけで動くので、リポジトリを読む人からは見えない。"
    ∷ "自分の作業でも各 SubAgent の作業でも、リポジトリが運ぶものに持ち込まないこと。コードコメント・"
    ∷ "コミットメッセージ・pull request のいずれも Next Now X やその識別子・コマンドに言及してはならない。"
    ∷ "この実行を見ている人はいないので、自分も各 SubAgent も質問はしない。資料が決めていない点が" ∷ "あれば、根拠を示せる選択肢を採り、仮定として明記して報告する。" ∷ ""
    ∷ "Tasks:" ∷ "{{task_list}}" ∷ "" ∷ "1. feature の graph を読み、挙がっている task が残りの作業とどう関係するかを把握する。"
    ∷ "   - `nnx graph {{feature_id}}`"
    ∷ "2. 各 task をそれぞれ専用の SubAgent に渡す。1 つの SubAgent に 1 つの task だけを渡し、"
    ∷ "   同じ SubAgent に 2 つの task を渡さない。"
    ∷ "   各 SubAgent はそれぞれ新規の git worktree で作業する。checkout を共有した SubAgent は、"
    ∷ "   互いの書きかけの編集をコミットしてしまう。" ∷ "   各 SubAgent は指示を自分からではなく Next Now X から受け取る。"
    ∷ "   - 渡された task について `nnx prompt TASK_ID --kind design` を実行し、表示された" ∷ "     プロンプトに従う。"
    ∷ "   - そのプロンプトは設計の形を左右する判断をユーザーに質問するよう指示するが、答えられる人は" ∷ "     いないので、質問せず仮定として明記して計画に書く。"
    ∷ "   - 最後に `nnx plan set TASK_ID --file PATH` で計画を登録して終える。"
    ∷ "     製品コードは書かず、pull request も開かない。" ∷ "   - 決めた内容と、プロンプトが扱っていなかった点を報告する。"
    ∷ "   graph 上で独立している task は並行して進めてよい。" ∷ "   この一覧の別の task に依存する task は、その task の計画が登録されてから設計し、"
    ∷ "   その計画が決めた内容を前提にできるようにする。" ∷ "3. すべての SubAgent を待ち、それぞれの報告を読む。"
    ∷ "   SubAgent が失敗した task は未設計のままにする。自分で設計せずに報告する。" ∷ "   それに依存する task も土台となる計画がないので、未設計のままにする。"
    ∷ "" ∷ "設計だけを行う。実装と pull request は後のステップに任せる。" ∷ "各 task の結果を、失敗したものも含めて個別に報告する。" ∷ [])
