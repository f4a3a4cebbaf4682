-- ===== src/Probes/Batch8/F243To246.antt =====
-- test-harness/probes/batch8.py: the features F243, F244, F245, F246.
use claude_studio.Prelude.{String, true, [], ◌∷◌}
use claude_studio.Prelude.Int.{pos}
use claude_studio.Python.Json.{Json, bool, int, str, arr, obj, nil, cons, end, field}
use claude_studio.Python.Values.{value_eq, is_true, set_of, is_subset}
use claude_studio.Python.Dynamic.{
  concat, item, nth, each, len, within, both, hashed, check_or, any_of, all_of, next_of, map_of,
}
use claude_studio.Python.Stateful.{Stateful, ◌>>=◌, ◌>>◌, pure}
use claude_studio.Probes.Steps.{Harness, check, ev}

module _ {W : Type 0} (h : Harness W) where
  -- F243: prompt template library
  unfoldable pub f243 : Stateful W (String × String)
  f243 = do
    t ← item (← h.request "prompts.templates" (obj end)) "templates"
    names ← pure (set_of (← map_of (λ x. do hashed (← item x "name")) (← each t)))
    check
        (is_subset ((str "Code Review") ∷ (str "Tests schreiben") ∷ (str "Refactoring") ∷ []) names)
        ""
    check (← all_of (λ x. do within "{{" (← item x "template")) (← each t)) ""
    path ← ev h "F243" "templates.json" t
    pure (path, "Prompt-Template-Bibliothek (Review/Tests/Refactor…)")

  -- F244: prompt history chronological + repeat (retrievable)
  unfoldable pub f244 : Stateful W (String × String)
  f244 = do
    ids_1 ←
        item
          (← h.request "prompts.record" (
            obj (
              field "prompt" (str "fix the parser")
                (field "agent" (str "dev") (field "tokens" (int (pos 100)) end)))))
          "id"
    ids_2 ←
        item
          (← h.request "prompts.record" (
            obj (
              field "prompt" (str "add dark mode")
                (field "agent" (str "dev") (field "tokens" (int (pos 101)) end)))))
          "id"
    ids_3 ←
        item
          (← h.request "prompts.record" (
            obj (
              field "prompt" (str "write tests for auth")
                (field "agent" (str "dev") (field "tokens" (int (pos 102)) end)))))
          "id"
    let ids : Json = arr (cons ids_1 (cons ids_2 (cons ids_3 nil)))
    hist ← item (← h.request "prompts.history" (obj (field "limit" (int (pos 10)) end))) "entries"
    check (value_eq (← item (← nth hist 0) "prompt") (str "write tests for auth")) ""
    check (← all_of (λ e. do both (do within "timestamp" e) (do within "tokens" e)) (← each hist))
        ""
    check
        (← any_of
          (λ e. do
            both (do pure (value_eq (← item e "id") (← nth ids 0)))
                (do pure (value_eq (← item e "prompt") (str "fix the parser"))))
          (← each hist))
        ""
    path ← ev h "F244" "history.json" hist
    pure (path, "Prompt-History chronologisch (Timestamp/Agent/Token) + wiederholbar")

  -- F245: favorites + full-text search over history
  unfoldable pub f245 : Stateful W (String × String)
  f245 = do
    target ←
        next_of (λ e. do pure (value_eq (← item e "prompt") (str "add dark mode")))
          (← each (← item (← h.request "prompts.history" (obj end)) "entries"))
    h.request "prompts.favorite"
        (obj (field "id" (← item target "id") (field "favorite" (bool true) end)))
    favs ←
        item (← h.request "prompts.history" (obj (field "favorites_only" (bool true) end)))
          "entries"
    search_reply ←
        item (← h.request "prompts.history" (obj (field "query" (str "parser") end))) "entries"
    check (value_eq (← len favs) (int (pos 1))) ""
    check (value_eq (← item (← nth favs 0) "prompt") (str "add dark mode")) ""
    check (is_true (← item (← nth favs 0) "favorite")) ""
    check (value_eq (← len search_reply) (int (pos 1))) ""
    check (← within "parser" (← item (← nth search_reply 0) "prompt")) ""
    path ←
        ev h "F245" "favorites-search.json"
          (obj (field "favorites" favs (field "search_parser" search_reply end)))
    pure (path, "Favoriten + Volltextsuche über History")

  -- F246: prompt chain pipes output -> input
  unfoldable pub f246 : Stateful W (String × String)
  f246 = do
    r ← h.request "prompts.chain_run" (
        obj (
          field "input" (str "hello") (
            field "steps"
              (arr (
                cons (obj (field "op" (str "append") (field "arg" (str " world") end))) (
                  cons (obj (field "op" (str "upper") end)) (
                    cons
                      (obj (
                        field "op" (str "replace")
                          (field "from" (str "WORLD") (field "to" (str "CLAUDE") end))))
                      nil))))
              end)))
    check_or (value_eq (← item r "output") (str "HELLO CLAUDE"))
        (do pure (concat ("got " ∷ h.repr (← item r "output") ∷ [])))
    path ← ev h "F246" "chain.json" r
    pure (path, "Chain: Output jedes Schritts -> Input des nächsten")
