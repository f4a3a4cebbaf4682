-- ===== src/Probes/Batch13/F333To350.antt =====
-- test-harness/probes/batch13.py: the features F333, F323, F326, F350.
use claude_studio.Prelude.{String}
use claude_studio.Prelude.Int.{pos}
use claude_studio.Python.Json.{Json, int, str, arr, obj, nil, cons, end, field}
use claude_studio.Python.Values.{value_eq, is_true, is_false, any_eq, set_of}
use claude_studio.Python.Dynamic.{item, each, len, at_least, within, both, hashed, any_of, map_of}
use claude_studio.Python.Stateful.{Stateful, ◌>>=◌, ◌>>◌, pure}
use claude_studio.Probes.Steps.{Harness, check, ev}

module _ {W : Type 0} (h : Harness W) where
  -- F333: API portal from OpenAPI spec
  unfoldable pub f333 : Stateful W (String × String)
  f333 = do
    let spec : Json = obj (
        field "paths"
          (obj (
            field "/users"
              (obj (
                field "get" (obj (field "summary" (str "List users") end))
                  (field "post" (obj (field "summary" (str "Create user") end)) end)))
              (field "/users/{id}"
                (obj (field "delete" (obj (field "summary" (str "Delete user") end)) end)) end)))
          end)
    r ← h.request "apiportal.render" (obj (field "openapi" spec end))
    eps ← pure (
        set_of
          (← map_of
            (λ e. do
              pure (
                  arr
                    (cons (← hashed (← item e "method")) (cons (← hashed (← item e "path")) nil))))
            (← each (← item r "endpoints"))))
    check (any_eq (arr (cons (str "GET") (cons (str "/users") nil))) eps) ""
    check (any_eq (arr (cons (str "DELETE") (cons (str "/users/{id}") nil))) eps) ""
    check (value_eq (← item r "count") (int (pos 3))) ""
    path ← ev h "F333" "apiportal.json" r
    pure (path, "Endpunkt-Portal aus OpenAPI gerendert")

  -- F323: snapshot manager detects deviations
  unfoldable pub f323 : Stateful W (String × String)
  f323 = do
    h.request "snapshot.save" (
        obj (
          field "name" (str "ui-home") (
            field "data" (obj (field "title" (str "Home") (field "items" (int (pos 3)) end))) end)))
    same ← h.request "snapshot.compare" (
        obj (
          field "name" (str "ui-home") (
            field "data" (obj (field "title" (str "Home") (field "items" (int (pos 3)) end))) end)))
    diff ← h.request "snapshot.compare" (
        obj (
          field "name" (str "ui-home") (
            field "data" (obj (field "title" (str "Home") (field "items" (int (pos 5)) end))) end)))
    check (is_false (← item same "changed")) ""
    check (is_true (← item diff "changed")) ""
    path ← ev h "F323" "snapshot.json" (obj (field "same" same (field "diff" diff end)))
    pure (path, "Snapshot-Abweichung erkannt")

  -- F326: accessibility WCAG check
  unfoldable pub f326 : Stateful W (String × String)
  f326 = do
    bad ← h.request "a11y.check" (
        obj (
          field "html" (str "<html><body><img src=\"x.png\"><input type=\"text\"></body></html>")
            end))
    good ← h.request "a11y.check" (
        obj (
          field "html"
            (str
              "<html lang=\"de\"><body><img src=\"x\" alt=\"Logo\"><label>N<input></label></body></html>")
            end))
    rules_reply ←
        pure
          (set_of (← map_of (λ v. do hashed (← item v "rule")) (← each (← item bad "violations"))))
    check (any_eq (str "img-alt") rules_reply) ""
    check (← at_least (← item bad "count") (int (pos 1))) ""
    check (is_true (← item good "passed")) ""
    path ← ev h "F326" "a11y.json" (obj (field "bad" bad (field "good" good end)))
    pure (path, "WCAG-Verstöße gelistet (img-alt etc.)")

  -- F350: session comments pinned to a message
  unfoldable pub f350 : Stateful W (String × String)
  f350 = do
    h.request "comments.add" (
        obj (
          field "session_id" (str "s1")
            (field "message_id" (str "m7") (field "text" (str "this looks risky") end))))
    h.request "comments.add" (
        obj (
          field "session_id" (str "s1")
            (field "message_id" (str "m9") (field "text" (str "nice fix") end))))
    lst ← item (← h.request "comments.list" (obj (field "session_id" (str "s1") end))) "comments"
    check (value_eq (← len lst) (int (pos 2))) ""
    check
        (← any_of
          (λ x. do
            both (do pure (value_eq (← item x "message_id") (str "m7")))
                (do within "risky" (← item x "text")))
          (← each lst))
        ""
    path ← ev h "F350" "comments.json" lst
    pure (path, "Kommentare an Nachrichten angeheftet")
