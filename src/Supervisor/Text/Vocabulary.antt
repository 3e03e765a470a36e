-- ===== src/Supervisor/Text/Vocabulary.antt =====
-- internal/supervisor/textpolicy/textpolicy.go: the categories and the words that tell them.
use codex_runner.Prelude.{List, [], ◌∷◌, Text, text}

pub data Category : Type 0 where
  force_push : Category
  pull_request : Category
  deploy : Category
  deletion : Category
  production : Category
  billing : Category
  git_history : Category
  migration : Category
  privilege : Category

pub record VocabularyEntry : Type 0 where
  pub category : Category
  pub word : Text

abbrev entry : Category → Text → VocabularyEntry
entry c w = record { category = c; word = w }

abbrev pub vocabulary : List VocabularyEntry
vocabulary =
    entry force_push (text "force push")
    ∷ entry force_push (text "--force")
    ∷ entry force_push (text "-f")
    ∷ entry force_push (text "+refspec")
    ∷ entry force_push (text "強制プッシュ")
    ∷ entry force_push (text "force-with-lease")
    ∷ entry pull_request (text "PR")
    ∷ entry pull_request (text "pull request")
    ∷ entry pull_request (text "プルリクエスト")
    ∷ entry pull_request (text "gh pr")
    ∷ entry deploy (text "deploy")
    ∷ entry deploy (text "デプロイ")
    ∷ entry deploy (text "リリース")
    ∷ entry deploy (text "本番反映")
    ∷ entry deploy (text "publish")
    ∷ entry deletion (text "delete")
    ∷ entry deletion (text "rm -rf")
    ∷ entry deletion (text "rm -fr")
    ∷ entry deletion (text "削除")
    ∷ entry deletion (text "drop")
    ∷ entry deletion (text "truncate")
    ∷ entry deletion (text "reset --hard")
    ∷ entry deletion (text "clean -f")
    ∷ entry deletion (text "消去")
    ∷ entry production (text "production")
    ∷ entry production (text "本番")
    ∷ entry production (text "prod 環境")
    ∷ entry billing (text "課金")
    ∷ entry billing (text "購入")
    ∷ entry billing (text "支払")
    ∷ entry billing (text "有料")
    ∷ entry billing (text "billing")
    ∷ entry billing (text "API キー")
    ∷ entry billing (text "プラン変更")
    ∷ entry git_history (text "merge")
    ∷ entry git_history (text "rebase")
    ∷ entry git_history (text "マージ")
    ∷ entry git_history (text "リベース")
    ∷ entry migration (text "migrate")
    ∷ entry migration (text "マイグレーション")
    ∷ entry privilege (text "sudo")
    ∷ []
